-- ===== src/Lua/Freeze/Scans.antt =====
-- What the two passes over a table, into Lua and out of it, make of arrays and maps.
use beam_mp_server.Base.{
  ℕ, suc, ◌+◌, ◌-◌, ◌≤◌, ◌<◌, ◌^◌, max, ◌≡◌, refl, sym, ap, ◌∙◌, Bool, true, false, not, ◌&&◌, List,
  [], ◌∷◌, ◌++◌, none, some, arith, ltb, leb, if◌then◌else◌, length, is_empty, length-append,
  append_assoc, list_beq, inl, inr, Bool-cases,
}
use beam_mp_server.Base.Ints.{ℤ}
use beam_mp_server.Base.Text.{Bytes}
use beam_mp_server.Lua.Values.{
  Key, Entries, entry, Detached, monostate, bool_of, double_of, int_of, string_of, array_of,
  object_of, Items, no_items, item, Fields, no_fields, field, items, Floating,
}
use beam_mp_server.Lua.Freeze.{
  has_field, push_field, Scan, new_scan, blank, set_item, fill, build, is_index, set_entry, to_lua,
}

abbrev pub is_nothing : Detached → Bool
is_nothing monostate = true
is_nothing _ = false

abbrev pub to_list : Items → List Detached
to_list no_items = []
to_list (item v vs) = v ∷ to_list vs

abbrev pub ends_in_value : Items → Bool
ends_in_value no_items = false
ends_in_value (item v no_items) = not (is_nothing v)
ends_in_value (item v (item w vs)) = ends_in_value (item w vs)

-- What Lua and the processor promise: an `int` is read back as that `int`, and an index that a
-- `double` holds exactly is read back as that index.
pub record Exact (p : Floating) : Type 0 where
  pub ints : (z : ℤ) → p.as_int (p.push_int z) ≡ some z
  pub indices :
      (i : ℕ)
      → 1 ≤ i
      → i < 2 ^ 53
      → (is_index p (p.push_index i) ≡ true) × (p.truncate (p.push_index i) ≡ i)

module _ (p : Floating) where
  -- What `Freeze` gives out: a number that fits an `int` is one, an array has a last element, a
  -- map has distinct keys and no empty values, and at most `d` levels are left.
  unfoldable mutual
    pub IsFrozen : ℕ → Detached → Type 0
    IsFrozen d monostate = Unit
    IsFrozen d (bool_of b) = Unit
    IsFrozen d (double_of n) = p.as_int n ≡ none
    IsFrozen d (int_of z) = Unit
    IsFrozen d (string_of s) = Unit
    IsFrozen d (array_of vs) =
        (d < 64) × (ends_in_value vs ≡ true) × (length (to_list vs) < 2 ^ 53) × AreFrozen (d + 1) vs
    IsFrozen d (object_of fs) = (d < 64) × HasFrozen (d + 1) fs

    pub AreFrozen : ℕ → Items → Type 0
    AreFrozen d no_items = Unit
    AreFrozen d (item v vs) = IsFrozen d v × AreFrozen d vs

    pub HasFrozen : ℕ → Fields → Type 0
    HasFrozen d no_fields = Unit
    HasFrozen d (field k v fs) =
        IsFrozen d v × (is_nothing v ≡ false) × (has_field k fs ≡ false) × HasFrozen d fs

-- The maps of two passes, one behind the other.
abbrev pub join : Fields → Fields → Fields
join no_fields gs = gs
join (field k v fs) gs = field k v (join fs gs)

pub join-push_field :
    (k : Bytes) (v : Detached) (fs gs : Fields)
    → join (push_field k v fs) gs ≡ join fs (field k v gs)
unfolding push_field
join-push_field k v no_fields gs = refl
join-push_field k v (field j w fs) gs = ap (field j w) (join-push_field k v fs gs)

pub has_field-push_field :
    (j k : Bytes) (v : Detached) (fs : Fields)
    → has_field j (push_field k v fs) ≡ (if has_field j fs then true else list_beq k j)
unfolding has_field push_field
has_field-push_field j k v no_fields = ground arith
has_field-push_field j k v (field i w fs) = ground (arith, has_field-push_field j k v fs)

-- The entries that the numeric pass collects, and the last index.
abbrev pub numbered : ℕ → Items → List (ℕ × Detached)
numbered i no_items = []
numbered i (item v vs) = if is_nothing v then numbered (suc i) vs else (i, v) ∷ numbered (suc i) vs

abbrev pub last_index : ℕ → Items → ℕ
last_index i no_items = 0
last_index i (item v vs) =
    if is_nothing v then last_index (suc i) vs else max i (last_index (suc i) vs)

abbrev pub with_items : ℕ → Items → Scan → Scan
with_items i vs s = record s {
  numeric_entries = s.numeric_entries ++ numbered i vs;
  max_index = max s.max_index (last_index i vs);
}

abbrev pub with_fields : Fields → Scan → Scan
with_fields fs s = record s { object_out = join s.object_out fs }

last_index_lem :
    (i : ℕ) (vs : Items) → ends_in_value vs ≡ true → suc (last_index i vs) ≡ i + length (to_list vs)
last_index_lem i no_items h = absurd (ground arith)
last_index_lem i (item v no_items) h = ground arith
last_index_lem i (item v (item w vs)) h = ground (arith, last_index_lem (suc i) (item w vs) h)

to_list-items : (vs : Items) → items (to_list vs) ≡ vs
to_list-items no_items = refl
to_list-items (item v vs) = ap (item v) (to_list-items vs)

set_item-append :
    (x y : Detached) (pre vs : List Detached)
    → set_item (length pre) x (pre ++ y ∷ vs) ≡ pre ++ x ∷ vs
unfolding set_item
set_item-append x y [] vs = refl
set_item-append x y (w ∷ pre) vs = ap (◌∷◌ w) (set_item-append x y pre vs)

is_nothing-monostate : (v : Detached) → is_nothing v ≡ true → v ≡ monostate
is_nothing-monostate monostate h = refl
is_nothing-monostate (bool_of b) h = absurd (ground arith)
is_nothing-monostate (double_of b) h = absurd (ground arith)
is_nothing-monostate (int_of b) h = absurd (ground arith)
is_nothing-monostate (string_of b) h = absurd (ground arith)
is_nothing-monostate (array_of b) h = absurd (ground arith)
is_nothing-monostate (object_of b) h = absurd (ground arith)

placed :
    (i : ℕ) (v : Detached) (pre vs : List Detached)
    → i ≡ suc (length pre)
    → (if ltb 0 i && leb i (length (pre ++ monostate ∷ vs))
        then set_item (i - 1) v (pre ++ monostate ∷ vs)
        else pre ++ monostate ∷ vs)
      ≡ pre ++ v ∷ vs
placed i v pre vs h =
    rw (h, length-append pre (monostate ∷ vs)) (ground (arith, set_item-append v monostate pre vs))

shifted :
    (es : List (ℕ × Detached)) (v : Detached) (pre bs ws : List Detached)
    → fill es ((pre ++ v ∷ []) ++ bs) ≡ (pre ++ v ∷ []) ++ ws
    → fill es (pre ++ v ∷ bs) ≡ pre ++ v ∷ ws
shifted es v pre bs ws h =
    ap (fill es) (sym (append_assoc pre (v ∷ []) bs)) ∙ h ∙ append_assoc pre (v ∷ []) ws

fill-numbered :
    (i : ℕ) (vs : Items) (pre : List Detached)
    → i ≡ suc (length pre)
    → fill (numbered i vs) (pre ++ blank (length (to_list vs))) ≡ pre ++ to_list vs
unfolding fill blank
fill-numbered i no_items pre h = refl
fill-numbered i (item v vs) pre h = elim (Bool-cases (is_nothing v)) [
  | inl n ↦ rw n (
      ap (λ w. fill (numbered (suc i) vs) (pre ++ w ∷ blank (length (to_list vs))))
        (sym (is_nothing-monostate v n))
      ∙ shifted (numbered (suc i) vs) v pre (blank (length (to_list vs))) (to_list vs)
          (fill-numbered (suc i) vs (pre ++ v ∷ []) (ground (arith, length-append pre (v ∷ [])))))
  | inr n ↦ rw n (
      ap (fill (numbered (suc i) vs)) (placed i v pre (blank (length (to_list vs))) h)
      ∙ shifted (numbered (suc i) vs) v pre (blank (length (to_list vs))) (to_list vs)
          (fill-numbered (suc i) vs (pre ++ v ∷ []) (ground (arith, length-append pre (v ∷ [])))))
]

pub set_entry-value :
    (p : Floating) (k : Key) (v : Detached) (es : Entries)
    → is_nothing v ≡ false
    → set_entry p k (to_lua p v) es ≡ entry k (to_lua p v) es
unfolding to_lua
set_entry-value p k monostate es h = absurd (ground arith)
set_entry-value p k (bool_of b) es h = refl
set_entry-value p k (double_of b) es h = refl
set_entry-value p k (int_of b) es h = refl
set_entry-value p k (string_of b) es h = refl
set_entry-value p k (array_of b) es h = refl
set_entry-value p k (object_of b) es h = refl

pub set_entry-nothing :
    (p : Floating) (k : Key) (v : Detached) (es : Entries)
    → is_nothing v ≡ true
    → set_entry p k (to_lua p v) es ≡ es
unfolding to_lua
set_entry-nothing p k v es h = rw (is_nothing-monostate v h) refl

numbered_some : (i : ℕ) (vs : Items) → ends_in_value vs ≡ true → is_empty (numbered i vs) ≡ false
numbered_some i no_items h = absurd (ground arith)
numbered_some i (item v no_items) h = ground arith
numbered_some i (item v (item w vs)) h = ground (arith, numbered_some (suc i) (item w vs) h)

longest : (vs : Items) → ends_in_value vs ≡ true → max 0 (last_index 1 vs) ≡ length (to_list vs)
longest vs h = omega (arith, last_index_lem 1 vs h)

pub build-array :
    (vs : Items) → ends_in_value vs ≡ true → build (with_items 1 vs new_scan) ≡ array_of vs
unfolding build
build-array vs h =
    rw (numbered_some 1 vs h, longest vs h)
      (ap (λ ws. array_of (items ws)) (fill-numbered 1 vs [] refl) ∙ ap array_of (to_list-items vs))

pub build-object : (fs : Fields) → build (with_fields fs new_scan) ≡ object_of fs
unfolding build
build-object fs = refl
