-- ===== src/Peercoord/Authority/Terms.antt =====
-- The term of a Leadership (peercoord/types.go), which wraps around at 2 ^ 64.
use rysh_cli_shared.Prelude.{ℕ, suc, ◌+◌, ◌%◌, ◌≤◌, ◌<◌, ◌≡◌, ◌≢◌, refl, ◌∙◌, arith, inc64, two_64}

-- The second term comes after so many appointments, at least one and at most `n`.
pub record Ahead (t u n : ℕ) : Type 0 where
  pub count : ℕ
  pub some_one : 1 ≤ count
  pub at_most : count ≤ n
  pub wraps : u ≡ (t + count) % two_64

pub Ahead-inc64 : (t : ℕ) → Ahead t (inc64 t) 1
Ahead-inc64 t = record { count = 1; some_one = omega arith; at_most = omega arith; wraps = refl }

pub Ahead-rests : (t u u' n : ℕ) → u' ≡ u → Ahead t u n → Ahead t u' (suc n)
Ahead-rests t u u' n e a = record {
  count = a.count;
  some_one = a.some_one;
  at_most = omega (arith, a.at_most);
  wraps = e ∙ a.wraps;
}

pub Ahead-moves : (t u u' n : ℕ) → u' ≡ inc64 u → Ahead t u n → Ahead t u' (suc n)
Ahead-moves t u u' n e a = record {
  count = suc a.count;
  some_one = omega arith;
  at_most = omega (arith, a.at_most);
  wraps = omega (arith, e, a.wraps);
}

-- Fewer than 2 ^ 64 appointments do not lead back to a term.
pub Ahead-ne : (t u n : ℕ) → n < two_64 → Ahead t u n → u ≢ t
Ahead-ne t u n h a e = omega (arith, h, a.some_one, a.at_most, a.wraps, e)
