-- ===== src/Compress.antt =====
-- `Comp` and `DeComp` of src/Common.cpp, and `CompressProperly` of src/TNetwork.cpp. zlib itself is
-- a parameter.
pub mod Laws
use beam_mp_server.Base.{
  ℕ, zero, suc, ◌*◌, ◌≤◌, min, max, ◌++◌, Bool, Option, none, some, leb, if◌then◌else◌, length,
}
use beam_mp_server.Base.Text.{Bytes, codes}

-- What `compress` and `uncompress` return, with the bytes that they wrote.
pub data ZResult : Type 0 where
  z_ok : Bytes → ZResult
  z_buf_error z_data_error z_mem_error : ZResult

-- The size of the output buffer is the first argument of both calls.
pub record Zlib : Type 0 where
  pub compress_bound : ℕ → ℕ
  pub compress : ℕ → Bytes → ZResult
  pub uncompress : ℕ → Bytes → ZResult

-- `none` is the exception.
unfoldable pub comp : Zlib → Bytes → Option Bytes
comp z input = elim (z.compress (z.compress_bound (length input)) input) [
  | z_ok output ↦ some output
  | _ ↦ none
]

abbrev pub starting_max : ℕ
starting_max = 15 * 1024 * 1024

abbrev pub buffer_max : ℕ
buffer_max = 30 * 1024 * 1024

-- `out_of_rounds` stands for a loop that has not ended on its fuel.
pub data Inflated : Type 0 where
  inflated : Bytes → Inflated
  invalid_data runtime_error out_of_rounds : Inflated

-- The loop of `DeComp`, with the size of the buffer.
unfoldable pub inflate : Zlib → ℕ → ℕ → Bytes → Inflated
inflate z zero size input = out_of_rounds
inflate z (suc fuel) size input =
    let again = inflate z fuel (max (size * 2) buffer_max) input in
    elim (z.uncompress size input) [
      | z_ok output ↦ inflated output
      | z_buf_error ↦ if leb buffer_max size then runtime_error else again
      | z_data_error ↦ invalid_data
      | z_mem_error ↦ runtime_error
    ]

-- The first buffer has five times the input's size, and 15 MB at most. Two rounds are enough.
unfoldable pub de_comp : Zlib → Bytes → Inflated
de_comp z input = inflate z 2 (min (length input * 5) starting_max) input

abbrev pub with_mark : Option Bytes → Option Bytes
with_mark none = none
with_mark (some d) = some (codes "ABG:" ++ d)

-- `CompressProperly`.
unfoldable pub compress_properly : Zlib → Bytes → Option Bytes
compress_properly z input = with_mark (comp z input)
