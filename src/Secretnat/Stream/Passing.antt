-- ===== src/Secretnat/Stream/Passing.antt =====
-- A whole stream through StreamRestorer (secretnat/stream.go).
use rysh_cli_shared.Prelude.{List, [], ◌∷◌, ◌++◌, ◌≡◌, refl, ap, sym, ◌∙◌, append-nil}
use rysh_cli_shared.Secretnat.Stream.{
  Bytes, Session, StreamRestorer, new_stream_restorer, restored, emitted, fed, feed, flush,
}
use rysh_cli_shared.Secretnat.Stream.Cutting.{emitted-held, append_assoc}
use rysh_cli_shared.Secretnat.Stream.Tokens.{left_nil}

-- A stream: each chunk with the session as it is then.
abbrev pub text_of : List (Session × Bytes) → Bytes
text_of [] = []
text_of ((w, chunk) ∷ cs) = chunk ++ text_of cs

-- Feed for each chunk, and Flush at the end.
abbrev pub restore_stream : Session → List (Session × Bytes) → StreamRestorer → Bytes
restore_stream w [] r = (flush w r).0
restore_stream w ((v, chunk) ∷ cs) r = (feed v chunk r).0 ++ restore_stream w cs (feed v chunk r).1

-- There is nothing to restore.
abbrev pub IsPlain : Session → Type 0
IsPlain w = (s : Bytes) → w.restore s ≡ s

abbrev pub ArePlain : List (Session × Bytes) → Type 0
ArePlain [] = Unit
ArePlain ((w, chunk) ∷ cs) = IsPlain w × ArePlain cs

restored-IsPlain : (w : Session) (s : Bytes) → IsPlain w → restored w s ≡ s
restored-IsPlain w [] p = refl
restored-IsPlain w (b ∷ s) p = p (b ∷ s)

fed-IsPlain :
    (w : Session) (s : Bytes) (r : StreamRestorer)
    → IsPlain w
    → (s ≡ [] → r.pending ≡ [])
    → (fed w s r).0 ++ (fed w s r).1.pending ≡ s
unfolding fed
fed-IsPlain w [] r p e = e refl
fed-IsPlain w (b ∷ s) r p e = rw (restored-IsPlain w (emitted w (b ∷ s)) p) (emitted-held w (b ∷ s))

feed-IsPlain :
    (w : Session) (chunk : Bytes) (r : StreamRestorer)
    → IsPlain w
    → (feed w chunk r).0 ++ (feed w chunk r).1.pending ≡ r.pending ++ chunk
unfolding feed
feed-IsPlain w chunk r p = fed-IsPlain w (r.pending ++ chunk) r p (left_nil r.pending chunk)

stream-IsPlain :
    (w : Session) (cs : List (Session × Bytes)) (r : StreamRestorer)
    → IsPlain w
    → ArePlain cs
    → restore_stream w cs r ≡ r.pending ++ text_of cs
unfolding flush
stream-IsPlain w [] r p u = restored-IsPlain w r.pending p ∙ sym (append-nil r.pending)
stream-IsPlain w ((v, chunk) ∷ cs) r p (q, u) =
    ap (λ t. (feed v chunk r).0 ++ t) (stream-IsPlain w cs (feed v chunk r).1 p u)
    ∙ (sym (append_assoc (feed v chunk r).0 (feed v chunk r).1.pending (text_of cs))
        ∙ (ap (λ t. t ++ text_of cs) (feed-IsPlain v chunk r q)
            ∙ append_assoc r.pending chunk (text_of cs)))

-- Where there is nothing to restore, Feed on each chunk and Flush at the end give the text of the
-- stream, nothing lost, repeated or reordered, whatever candidates are held back for.
pub restore_stream-IsPlain :
    (w : Session) (cs : List (Session × Bytes))
    → IsPlain w
    → ArePlain cs
    → restore_stream w cs new_stream_restorer ≡ text_of cs
restore_stream-IsPlain w cs p u = stream-IsPlain w cs new_stream_restorer p u
