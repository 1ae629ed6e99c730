-- ===== src/Config/Reading.antt =====
-- What the calls of `TryReadValue` leave in each setting.
use mathlib.Core.Option
use mathlib.Core.Path.{fun_ext}
use beam_mp_server.Base.{
  ◌≡◌, refl, sym, ap, ◌∙◌, Bool, true, false, not, ◌&&◌, List, [], ◌∷◌, Option, none, some, arith,
  All, Member, here, there, subst,
}
use beam_mp_server.Base.Dict.{lookup}
use beam_mp_server.Base.Text.{Bytes}
use beam_mp_server.Config.{
  Environment, Document, Read, env_get, from_env, of_entry, entry_at, new_value, set_new, read_over,
  try_read_value, reads, read_all,
}
use beam_mp_server.Settings.{Key, SettingValue, Settings, key_eq, same_key, get}
use beam_mp_server.Settings.Access.{type_of, get-set}

abbrev pub kept_or : SettingValue → Option (Option SettingValue) → SettingValue
kept_or old none = old
kept_or old (some none) = old
kept_or old (some (some v)) = v

module _ (getenv : Environment) (doc : Document) where
  abbrev chosen : Read → SettingValue → SettingValue
  chosen r old = kept_or old (new_value getenv doc r old)

  record Taken (r : Read) (s t : Settings) : Type 0 where
    value : Option.map (chosen r) (lookup r.key s.values) ≡ lookup r.key t.values
    others : (j : Key) → same_key r.key j ≡ false → lookup j t.values ≡ lookup j s.values
    types : (j : Key) → type_of j t ≡ type_of j s

  taken :
      (r : Read) (s t : Settings) (old : SettingValue) (new : Option (Option SettingValue))
      → lookup r.key s.values ≡ some old
      → new_value getenv doc r old ≡ new
      → set_new r.key s new ≡ some t
      → Taken r s t
  unfolding get
  taken r s t old none e n h = absurd (ground arith)
  taken r s t old (some none) e n h =
      let same : s ≡ t = ground arith in
      subst (Taken r s) same
        record { value = rw e (rw n refl); others = λ j b. refl; types = λ j. refl }
  taken r s t old (some (some v)) e n h =
      let w = get-set r.key v s t h in
      record { value = rw e (rw n (sym w.0)); others = w.1; types = w.2 }

  try_read_value-Taken :
      (r : Read) (s t : Settings) → try_read_value getenv doc r s ≡ some t → Taken r s t
  unfolding try_read_value get
  try_read_value-Taken r s t h = go (lookup r.key s.values) refl h
    where
      go :
          (o : Option SettingValue)
          → lookup r.key s.values ≡ o
          → read_over getenv doc r s o ≡ some t
          → Taken r s t
      go none e h = absurd (ground arith)
      go (some old) e h = taken r s t old (new_value getenv doc r old) e refl h

  -- What a run of calls leaves.
  record AllTaken (rs : List Read) (s u : Settings) : Type 0 where
    values :
        (r : Read)
        → Member r rs
        → lookup r.key u.values ≡ Option.map (chosen r) (lookup r.key s.values)
    untouched :
        (j : Key) → All (λ q. same_key q.key j ≡ false) rs → lookup j u.values ≡ lookup j s.values
    types : (j : Key) → type_of j u ≡ type_of j s

  -- No two calls are for the same setting.
  abbrev Distinct : List Read → Type 0
  Distinct [] = Unit {0}
  Distinct (r ∷ rs) = All (λ q. same_key q.key r.key ≡ false) rs × Distinct rs

  abbrev apart : Key → List Read → Bool
  apart k [] = true
  apart k (q ∷ rs) = not (same_key q.key k) && apart k rs

  abbrev are_distinct : List Read → Bool
  are_distinct [] = true
  are_distinct (r ∷ rs) = apart r.key rs && are_distinct rs

  apart_test :
      (k : Key) (rs : List Read) → apart k rs ≡ true → All (λ q. same_key q.key k ≡ false) rs
  apart_test k [] h = tt
  apart_test k (q ∷ rs) h = (ground arith, apart_test k rs (ground arith))

  Distinct-test : (rs : List Read) → are_distinct rs ≡ true → Distinct rs
  Distinct-test [] h = tt
  Distinct-test (r ∷ rs) h = (apart_test r.key rs (ground arith), Distinct-test rs (ground arith))

  differs :
      (r q : Read) (rs : List Read)
      → All (λ p. same_key p.key r.key ≡ false) rs
      → Member q rs
      → same_key r.key q.key ≡ false
  differs r q [] h m = elim m [ ]
  differs r q (p ∷ rs) h (here e) = rw e (ground (arith, h.0))
  differs r q (p ∷ rs) h (there m) = differs r q rs h.1 m

  all_taken :
      (r : Read) (rs : List Read) (s t u : Settings)
      → All (λ q. same_key q.key r.key ≡ false) rs
      → Taken r s t
      → AllTaken rs t u
      → AllTaken (r ∷ rs) s u
  all_taken r rs s t u d one rest = record {
    values = values;
    untouched = λ j n. rest.untouched j n.1 ∙ one.others j n.0;
    types = λ j. rest.types j ∙ one.types j;
  }
    where
      values :
          (q : Read)
          → Member q (r ∷ rs)
          → lookup q.key u.values ≡ Option.map (chosen q) (lookup q.key s.values)
      values q (here e) =
          subst
            (λ (x : Read). lookup x.key u.values ≡ Option.map (chosen x) (lookup x.key s.values))
            (sym e) (rest.untouched r.key d ∙ sym one.value)
      values q (there m) =
          rest.values q m ∙ ap (Option.map (chosen q)) (one.others q.key (differs r q rs d m))

  abbrev carry : Settings → List Read → Option Settings → Settings × Bool
  carry s rs o = elim o [ none ↦ (s, false) | some t ↦ read_all getenv doc rs t ]

  read_all-AllTaken :
      (rs : List Read) (s u : Settings)
      → Distinct rs
      → read_all getenv doc rs s ≡ (u, true)
      → AllTaken rs s u
  unfolding read_all
  read_all-AllTaken [] s u d h = subst (AllTaken [] s) (ap (λ (p : Settings × Bool). p.0) h) nothing
    where
      nothing : AllTaken [] s s
      nothing = record { values = λ r m. elim m [ ]; untouched = λ j n. refl; types = λ j. refl }
  read_all-AllTaken (r ∷ rs) s u d h =
      go (try_read_value getenv doc r s) refl h (λ t k. read_all-AllTaken rs t u d.1 k)
    where
      go :
          (o : Option Settings)
          → try_read_value getenv doc r s ≡ o
          → carry s rs o ≡ (u, true)
          → ((t : Settings) → read_all getenv doc rs t ≡ (u, true) → AllTaken rs t u)
          → AllTaken (r ∷ rs) s u
      go none e h f = absurd (ground arith)
      go (some t) e h f = all_taken r rs s t u d.0 (try_read_value-Taken r s t e) (f t h)

  reads-Distinct : Distinct (reads getenv)
  unfolding reads
  reads-Distinct = Distinct-test (reads getenv) refl

  abbrev by_variable : Read → SettingValue → Option Bytes → SettingValue
  by_variable r old o = elim o [
    | some v ↦ from_env old v
    | none ↦ kept_or old (of_entry old (entry_at doc r.category r.name))
  ]

  chosen_lem :
      (r : Read) (old : SettingValue) → chosen r old ≡ by_variable r old (env_get getenv r.variable)
  unfolding new_value
  chosen_lem r old = go (env_get getenv r.variable)
    where
      go :
          (o : Option Bytes)
          → kept_or old (elim o [
            | some v ↦ some (some (from_env old v))
            | none ↦ of_entry old (entry_at doc r.category r.name)
          ])
            ≡ by_variable r old o
      go none = refl
      go (some v) = refl

  -- If no call of `TryReadValue` throws, then afterwards each setting that is read, and that was there,
  -- holds the value of its variable, put into the setting's type, where that variable is not empty;
  -- else the value of the document, where it has one of the right type; and else what it held. A
  -- setting that is not read is as before.
  pub read_all-reads :
      (s u : Settings)
      → read_all getenv doc (reads getenv) s ≡ (u, true)
      → ((r : Read)
          → Member r (reads getenv)
          → lookup r.key u.values
            ≡ Option.map
                (λ old. by_variable r old (env_get getenv r.variable))
                (lookup r.key s.values))
        × ((j : Key)
            → All (λ q. same_key q.key j ≡ false) (reads getenv)
            → lookup j u.values ≡ lookup j s.values)
  read_all-reads s u h =
      let a = read_all-AllTaken (reads getenv) s u reads-Distinct h in
      (
        (λ r m.
            a.values r m ∙ ap (λ f. Option.map f (lookup r.key s.values)) (fun_ext (chosen_lem r))),
        a.untouched,
      )

  types_kept :
      (rs : List Read) (s : Settings) (j : Key)
      → type_of j (read_all getenv doc rs s).0 ≡ type_of j s
  unfolding read_all
  types_kept [] s j = refl
  types_kept (r ∷ rs) s j = go (try_read_value getenv doc r s) refl (λ t. types_kept rs t j)
    where
      go :
          (o : Option Settings)
          → try_read_value getenv doc r s ≡ o
          → ((t : Settings) → type_of j (read_all getenv doc rs t).0 ≡ type_of j t)
          → type_of j (carry s rs o).0 ≡ type_of j s
      go none e f = refl
      go (some t) e f = f t ∙ (try_read_value-Taken r s t e).types j

  -- Reading the configuration gives no setting another type, also where it breaks off.
  pub read_all_types :
      (s : Settings) (j : Key) → type_of j (read_all getenv doc (reads getenv) s).0 ≡ type_of j s
  read_all_types s j = types_kept (reads getenv) s j
