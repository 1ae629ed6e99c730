-- ===== src/Compress/Laws.antt =====
-- The decompression loop ends after two rounds, and gives back what was compressed up to 30 MB.
use beam_mp_server.Base.{
  ℕ, suc, ◌*◌, ◌≤◌, ◌<◌, min, max, ◌≡◌, ◌≢◌, some, arith, leb, if◌then◌else◌, length,
}
use beam_mp_server.Base.Text.{Bytes}
use beam_mp_server.Compress.{
  z_ok, z_buf_error, Zlib, comp, starting_max, buffer_max, inflated, runtime_error, out_of_rounds,
  inflate, de_comp,
}

-- What zlib's manual says of the two calls: compressing into a buffer of `compressBound` bytes
-- succeeds when there is memory, and uncompressing the result gives the input back into a buffer
-- that has room for it, and Z_BUF_ERROR into one that has not.
pub record IsZlib (z : Zlib) : Type 0 where
  pub restores :
      (s d : Bytes) (size : ℕ)
      → z.compress (z.compress_bound (length s)) s ≡ z_ok d
      → length s ≤ size
      → z.uncompress size d ≡ z_ok s
  pub overflows :
      (s d : Bytes) (size : ℕ)
      → z.compress (z.compress_bound (length s)) s ≡ z_ok d
      → size < length s
      → z.uncompress size d ≡ z_buf_error

-- With any zlib, and whatever the input: two rounds of the loop are enough, so that more fuel
-- changes nothing, and the second has a buffer of exactly 30 MB.
de_comp_two_rounds :
    (z : Zlib) (input : Bytes)
    → (de_comp z input ≢ out_of_rounds)
      × ((fuel : ℕ)
          → inflate z (suc (suc fuel)) (min (length input * 5) starting_max) input
            ≡ de_comp z input)
      × (max (min (length input * 5) starting_max * 2) buffer_max ≡ buffer_max)
unfolding de_comp inflate
de_comp_two_rounds z input = (ground arith, (λ fuel. ground arith), omega arith)

comp-eq-some :
    (z : Zlib) (s d : Bytes)
    → comp z s ≡ some d
    → z.compress (z.compress_bound (length s)) s ≡ z_ok d
unfolding comp
comp-eq-some z s d h = ground arith

-- With a zlib that keeps its manual's promises, a text of up to 30 MB that was compressed is
-- given back, and a longer one is refused with an error, however small it was compressed.
pub de_comp-comp :
    (z : Zlib) (s d : Bytes)
    → IsZlib z
    → comp z s ≡ some d
    → de_comp z d ≡ (if leb (length s) buffer_max then inflated s else runtime_error)
unfolding de_comp inflate
de_comp-comp z s d promises h = ground (
  arith,
  promises.restores s d first c,
  promises.overflows s d first c,
  promises.restores s d (max (first * 2) buffer_max) c,
  promises.overflows s d (max (first * 2) buffer_max) c,
)
  where
    c : z.compress (z.compress_bound (length s)) s ≡ z_ok d
    c = comp-eq-some z s d h

    first : ℕ
    first = min (length d * 5) starting_max
