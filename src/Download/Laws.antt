-- ===== src/Download/Laws.antt =====
-- What a download writes, and which files it may read.
use beam_mp_server.Base.{
  ℕ, zero, suc, ◌+◌, ◌≡◌, refl, ap, sym, ◌∙◌, false, List, [], ◌∷◌, ◌++◌, arith, ltb, length, take,
  drop, nat_eq,
}
use beam_mp_server.Base.Text.{Bytes}
use beam_mp_server.Download.{
  SysResult, sent, interrupted, would_block, failed, finished, send_pieces,
}

abbrev pub joined : List Bytes → Bytes
joined [] = []
joined (p ∷ ps) = p ++ joined ps

take-drop : (n : ℕ) (s : Bytes) → take n s ++ drop n s ≡ s
take-drop zero s = refl
take-drop (suc n) [] = refl
take-drop (suc n) (x ∷ s) = ap (◌∷◌ x) (take-drop n s)

drop_nil : (n : ℕ) → drop {A = ℕ} n [] ≡ []
drop_nil zero = refl
drop_nil (suc n) = refl

drop_at : (m n : ℕ) (s : Bytes) → m ≡ n → drop m s ≡ drop n s
drop_at m n s e = ap (λ k. drop k s) e

drop-drop : (a n : ℕ) (s : Bytes) → drop n (drop a s) ≡ drop (a + n) s
drop-drop zero n s = drop_at n (0 + n) s (omega arith)
drop-drop (suc a) n [] = drop_nil n ∙ sym (drop_nil (suc a + n))
drop-drop (suc a) n (x ∷ s) =
    drop-drop a n s ∙ drop_at (suc (a + n)) (suc a + n) (x ∷ s) (omega arith)

drop_past_end : (a : ℕ) (s : Bytes) → ltb a (length s) ≡ false → drop a s ≡ []
drop_past_end zero [] h = refl
drop_past_end zero (x ∷ s) h = absurd (ground arith)
drop_past_end (suc a) [] h = refl
drop_past_end (suc a) (x ∷ s) h = drop_past_end a s (ground arith)

-- However many bytes each call of `sendfile` takes, and whichever are interrupted: a loop that
-- ended by its own test has written the file from its starting offset on, each byte once and in
-- order.
send_pieces_complete :
    (file : Bytes) (at : ℕ) (rs : List SysResult)
    → (send_pieces file at rs).1 ≡ finished
    → joined (send_pieces file at rs).0 ≡ drop at file
unfolding send_pieces
send_pieces_complete file at [] h = ground (arith, drop_past_end at file)
send_pieces_complete file at (sent n ∷ rs) h = ground (
  arith,
  drop_past_end at file,
  send_pieces_complete file (at + n) rs,
  drop-drop at n file,
  take-drop n (drop at file),
)
send_pieces_complete file at (interrupted ∷ rs) h =
    ground (arith, drop_past_end at file, send_pieces_complete file at rs)
send_pieces_complete file at (would_block ∷ rs) h =
    ground (arith, drop_past_end at file, send_pieces_complete file at rs)
send_pieces_complete file at (failed ∷ rs) h = ground (arith, drop_past_end at file)
