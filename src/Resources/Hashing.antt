-- ===== src/Resources/Hashing.antt =====
-- The hash of a file, read in pieces, is the hash of what it holds.
use beam_mp_server.Base.{
  ℕ, zero, suc, ◌-◌, ◌≤◌, ◌<◌, min, ◌≡◌, refl, sym, ap, ◌∙◌, true, false, ◌||◌, [], ◌∷◌, ◌++◌,
  Option, none, some, arith, ◌==◌, length, take, drop, is_empty, Bool-cases, inl, inr,
}
use beam_mp_server.Base.Attempt.{◌>>=◌}
use beam_mp_server.Base.Text.{Bytes}
use beam_mp_server.Resources.{
  Entry, Digest, update_pieces, after_update, finish_hash, begin_hash, hash_file,
}

take_nil : (n : ℕ) → take n (let s : Bytes = [] in s) ≡ []
take_nil zero = refl
take_nil (suc n) = refl

-- The first `left` bytes, as a piece and what follows it.
take_piece :
    (n left : ℕ) (s : Bytes)
    → n ≤ left
    → take n s ++ take (left - length (take n s)) (drop n s) ≡ take left s
take_piece zero left s h = ap (λ l. take l s) (omega arith)
take_piece (suc n) zero s h = absurd (omega arith)
take_piece (suc n) (suc left) [] h = take_nil (suc left - 0)
take_piece (suc n) (suc left) (c ∷ s) h =
    ap (◌∷◌ c)
      (ap (λ k. take n s ++ take k (drop n s)) (omega arith) ∙ take_piece n left s (omega arith))

take_pos : (n : ℕ) (c : ℕ) (s : Bytes) → 0 < n → is_empty (take n (c ∷ s)) ≡ false
take_pos zero c s h = absurd (omega arith)
take_pos (suc n) c s h = refl

-- The loop ends where nothing is left to read.
no_piece :
    (left : ℕ) (s : Bytes)
    → (left == 0 || is_empty (take (min left 4096) s)) ≡ true
    → take left s ≡ []
no_piece zero s h = refl
no_piece (suc left) [] h = refl
no_piece (suc left) (c ∷ s) h = absurd (ground (arith, take_pos (min (suc left) 4096) c s))

length_pos : (s : Bytes) → is_empty s ≡ false → 0 < length s
length_pos [] h = absurd (ground arith)
length_pos (c ∷ s) h = omega arith

-- What the manual of `EVP_DigestUpdate` says of several calls, and of none.
pub record Updates {C : Type 0} (d : Digest C) : Type 0 where
  pub nothing : (c : C) → d.update c [] ≡ some c
  pub pieces : (c : C) (s t : Bytes) → (d.update c s >>= λ e. d.update e t) ≡ d.update c (s ++ t)

module _ {C : Type 0} (d : Digest C) (laws : Updates d) where
  after_update-bind :
      (s t : Bytes) (c : C) {go : C → Option C}
      → ((e : C) → go e ≡ d.update e t)
      → after_update d go (d.update c s) ≡ d.update c (s ++ t)
  after_update-bind s t c {go} h = cases (d.update c s) ∙ laws.pieces c s t
    where
      cases : (o : Option C) → after_update d go o ≡ (o >>= λ e. d.update e t)
      cases none = refl
      cases (some e) = h e

  update_pieces-take :
      (fuel left : ℕ) (s : Bytes) (c : C)
      → left < fuel
      → update_pieces d fuel left s c ≡ d.update c (take left s)
  unfolding update_pieces
  update_pieces-take zero left s c h = absurd (omega arith)
  update_pieces-take (suc fuel) left s c h =
      elim (Bool-cases (left == 0 || is_empty (take (min left 4096) s))) [
        | inl t ↦ rw t (rw (no_piece left s t) (sym (laws.nothing c)))
        | inr f ↦ rw f (
            after_update-bind (take (min left 4096) s) _ c (λ e.
              update_pieces-take fuel (left - length (take (min left 4096) s))
                (drop (min left 4096) s) e (smaller f))
            ∙ ap (d.update c) (take_piece (min left 4096) left s (omega arith)))
      ]
    where
      smaller :
          (left == 0 || is_empty (take (min left 4096) s)) ≡ false
          → left - length (take (min left 4096) s) < fuel
      smaller f = ground (arith, length_pos (take (min left 4096) s))

  -- Where the digest takes what several calls give it as one text: the hash of a file is that of its
  -- first bytes, as many as its size says or as there are, given to the digest at once; and there
  -- is none where one of the digest's calls fails.
  hash_file_lem :
      (e : Entry)
      → hash_file d e
        ≡ (d.init >>= λ c. d.update c (take e.size e.contents) >>= λ u. finish_hash d (some u))
  unfolding hash_file
  hash_file_lem e = go d.init
    where
      go :
          (o : Option C)
          → begin_hash d e o
            ≡ (o >>= λ c. d.update c (take e.size e.contents) >>= λ u. finish_hash d (some u))
      go none = refl
      go (some c) =
          rw (update_pieces-take (suc e.size) e.size e.contents c (omega arith))
            (ends (d.update c (take e.size e.contents)))
        where
          ends : (o : Option C) → finish_hash d o ≡ (o >>= λ u. finish_hash d (some u))
          ends none = refl
          ends (some u) = refl
