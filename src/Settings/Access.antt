-- ===== src/Settings/Access.antt =====
-- What a write may change, and what it may not.
use beam_mp_server.Base.{
  ℕ, ◌≡◌, ◌≢◌, refl, sym, ap, ◌∙◌, inl, inr, Bool, true, false, ◌||◌, List, [], ◌∷◌, Option, none,
  some, arith, ◌==◌, if◌then◌else◌, any_of, Bool-cases, ==_iff, subst,
}
use mathlib.Core.Option
use beam_mp_server.Base.Dict.{lookup, insert, lookup-insert}
use beam_mp_server.Settings.{
  Key, SettingValue, AccessMask, read_only, read_write, no_access, ComposedKey, Settings, key_eq,
  composed_eq, same_key, same_composed, get, type_index, assign, set, write_to,
  set_console_input_access_mapping, same_key_iff,
}

abbrev pub type_of : Key → Settings → Option ℕ
type_of j s = Option.map type_index (lookup j s.values)

-- What an assignment to a key leaves: the types, the other keys, and the table.
record Assigned (k : Key) (s t : Settings) : Type 0 where
  types : (j : Key) → type_of j t ≡ type_of j s
  others : (j : Key) → same_key k j ≡ false → lookup j t.values ≡ lookup j s.values
  table : t.access ≡ s.access

some_inj : (a b : Settings) → some a ≡ some b → a ≡ b
some_inj a b e = ground arith

insert-Assigned :
    (k : Key) (v : SettingValue) (s : Settings) (old : SettingValue)
    → lookup k s.values ≡ some old
    → (type_index old == type_index v) ≡ true
    → Assigned k s (record s { values = insert k v s.values })
insert-Assigned k v s old e same = record {
  types = λ j. elim (Bool-cases (same_key k j)) [
    | inl b ↦
        rw (lookup-insert k j v s.values, b)
          (ap some (sym ((==_iff (type_index old) (type_index v)).0 same))
            ∙ sym (
                ap (Option.map type_index)
                  (subst (λ i. lookup i s.values ≡ some old) ((same_key_iff k j).0 b) e)))
    | inr b ↦ rw (lookup-insert k j v s.values, b) refl
  ];
  others = λ j b. rw (lookup-insert k j v s.values, b) refl;
  table = refl;
}

assign-Assigned :
    (k : Key) (v : SettingValue) (s t : Settings) (old : Option SettingValue)
    → lookup k s.values ≡ old
    → assign k v s old ≡ some t
    → Assigned k s t
assign-Assigned k v s t none e h = absurd (ground arith)
assign-Assigned k v s t (some old) e h =
    go (type_index old == type_index v) h (insert-Assigned k v s old e)
  where
    u : Settings
    u = record s { values = insert k v s.values }

    go :
        (b : Bool)
        → (if b then some u else none) ≡ some t
        → (b ≡ true → Assigned k s u)
        → Assigned k s t
    go true h a = subst (Assigned k s) (some_inj u t h) (a refl)
    go false h a = absurd (ground arith)

pub written :
    (k : Key) (v : SettingValue) (s t : Settings) (old : Option SettingValue)
    → assign k v s old ≡ some t
    → lookup k t.values ≡ some v
written k v s t none h = absurd (ground arith)
written k v s t (some old) h =
    go (type_index old == type_index v) h
      (rw (lookup-insert k k v s.values, (same_key_iff k k).1 refl) refl)
  where
    u : Settings
    u = record s { values = insert k v s.values }

    go :
        (b : Bool)
        → (if b then some u else none) ≡ some t
        → lookup k u.values ≡ some v
        → lookup k t.values ≡ some v
    go true h a = subst (λ (x : Settings). lookup k x.values ≡ some v) (some_inj u t h) a
    go false h a = absurd (ground arith)

-- The keys that the console may write.
abbrev pub writes_key : Key → ComposedKey × (Key × AccessMask) → Bool
writes_key j (name, (k, mask)) = elim mask [ read_write ↦ same_key k j | _ ↦ false ]

abbrev pub is_writable : Key → Settings → Bool
is_writable j s = any_of (writes_key j) s.access

abbrev entry_key : Key → Option (Key × AccessMask) → Key
entry_key l none = l
entry_key l (some (k, mask)) = k

abbrev is_read_write : Option (Key × AccessMask) → Bool
is_read_write none = false
is_read_write (some (k, mask)) = elim mask [ read_write ↦ true | _ ↦ false ]

true≢false : true ≢ false
true≢false e = ground arith

entry_writable :
    (j k : Key) (name : ComposedKey) (m : List (ComposedKey × (Key × AccessMask)))
    → lookup name m ≡ some (k, read_write)
    → any_of (writes_key j) m ≡ false
    → same_key k j ≡ false
unfolding lookup
entry_writable j k name [] e h = absurd (ground arith)
entry_writable j k name ((n, (l, mask)) ∷ m) e h =
    go (same_composed n name) mask e h (entry_writable j k name m)
  where
    rest : Option (Key × AccessMask)
    rest = lookup name m

    left_false : (a b : Bool) → (a || b) ≡ false → a ≡ false
    left_false true b h = h
    left_false false b h = refl

    right_false : (a b : Bool) → (a || b) ≡ false → b ≡ false
    right_false true b h = absurd (ground arith)
    right_false false b h = h

    go :
        (b : Bool) (mask : AccessMask)
        → (if b then some (l, mask) else rest) ≡ some (k, read_write)
        → (writes_key j (n, (l, mask)) || any_of (writes_key j) m) ≡ false
        → (rest ≡ some (k, read_write) → any_of (writes_key j) m ≡ false → same_key k j ≡ false)
        → same_key k j ≡ false
    go true read_write e h f =
        subst (λ i. same_key i j ≡ false) (ap (entry_key l) e) (left_false _ _ h)
    go true read_only e h f = absurd (true≢false (ap is_read_write (sym e)))
    go true no_access e h f = absurd (true≢false (ap is_read_write (sym e)))
    go false mask e h f = f e (right_false _ _ h)

-- A write of the console that succeeds changes the value of one key at most, one that the table
-- lets it write, and no value's type.
pub record Written (s t : Settings) : Type 0 where
  pub types : (j : Key) → type_of j t ≡ type_of j s
  pub kept : (j : Key) → is_writable j s ≡ false → lookup j t.values ≡ lookup j s.values
  pub table : t.access ≡ s.access

write_to-Written :
    (v : SettingValue) (s t : Settings) (entry : Option (Key × AccessMask))
    → ((j : Key) (k : Key)
        → entry ≡ some (k, read_write)
        → is_writable j s ≡ false
        → same_key k j ≡ false)
    → write_to v s entry ≡ some t
    → Written s t
unfolding get
write_to-Written v s t none w h = absurd (ground arith)
write_to-Written v s t (some (k, read_only)) w h = absurd (ground arith)
write_to-Written v s t (some (k, no_access)) w h = absurd (ground arith)
write_to-Written v s t (some (k, read_write)) w h =
    let a = assign-Assigned k v s t (lookup k s.values) refl h in
    record { types = a.types; kept = λ j n. a.others j (w j k refl n); table = a.table }

pub set_console-Written :
    (name : ComposedKey) (v : SettingValue) (s t : Settings)
    → set_console_input_access_mapping name v s ≡ some t
    → Written s t
unfolding set_console_input_access_mapping
set_console-Written name v s t h =
    write_to-Written v s t (lookup name s.access) (λ j k e n. entry_writable j k name s.access e n)
      h

-- The console's writes in order; one that throws changes nothing.
abbrev pub or_same : Settings → Option Settings → Settings
or_same s none = s
or_same s (some t) = t

unfoldable pub console_run : List (ComposedKey × SettingValue) → Settings → Settings
console_run [] s = s
console_run ((name, v) ∷ ws) s =
    console_run ws (or_same s (set_console_input_access_mapping name v s))

Written-refl : (s : Settings) → Written s s
Written-refl s = record { types = λ j. refl; kept = λ j n. refl; table = refl }

one_Written :
    (name : ComposedKey) (v : SettingValue) (s : Settings)
    → Written s (or_same s (set_console_input_access_mapping name v s))
one_Written name v s = go (set_console_input_access_mapping name v s) refl
  where
    go :
        (r : Option Settings)
        → set_console_input_access_mapping name v s ≡ r
        → Written s (or_same s r)
    go none e = Written-refl s
    go (some t) e = set_console-Written name v s t e

-- Whatever sequence of writes the console makes, with whatever names and values: each setting
-- keeps its type, a setting that the table does not let the console write keeps its value, and
-- the table stays.
pub console_run_protects :
    (ws : List (ComposedKey × SettingValue)) (s : Settings) (j : Key)
    → (type_of j (console_run ws s) ≡ type_of j s)
      × (is_writable j s ≡ false → lookup j (console_run ws s).values ≡ lookup j s.values)
      × ((console_run ws s).access ≡ s.access)
unfolding console_run
console_run_protects [] s j = (refl, (λ n. refl), refl)
console_run_protects ((name, v) ∷ ws) s j =
    let u = or_same s (set_console_input_access_mapping name v s) in
    let one = one_Written name v s in
    let rest = console_run_protects ws u j in
    (
      rest.0 ∙ one.types j,
      (λ n. rest.1 (ap (λ m. any_of (writes_key j) m) one.table ∙ n) ∙ one.kept j n),
      rest.2 ∙ one.table,
    )

-- What a call of the program's own `set` writes is what the getter of the same type reads, and
-- every other setting, every type and the table are as before.
pub get-set :
    (k : Key) (v : SettingValue) (s t : Settings)
    → set k v s ≡ some t
    → (get k t ≡ some v)
      × ((j : Key) → same_key k j ≡ false → get j t ≡ get j s)
      × ((j : Key) → type_of j t ≡ type_of j s)
unfolding set get
get-set k v s t h =
    let a = assign-Assigned k v s t (lookup k s.values) refl h in
    (written k v s t (lookup k s.values) h, a.others, a.types)
