-- ===== src/Worlds/Registry/Valid.antt =====
-- Which files `parse_worlds_toml` accepts, and what it makes of them.
use mathlib.Core.Path.{subst}
use liaozhai.Common.{
  All, Bool-cases, List, Text, [], ap, append-nil, append_assoc, arith, eq_list, eq_list_refl,
  eq_list→eq, false, inl, inr, is_empty, refl, sym, true, ℕ, ◌++◌, ◌+◌, ◌↔◌, ◌∙◌, ◌∷◌, ◌≡◌, ◌≢◌,
}
use liaozhai.Core.Error.{Result, bind-ok, ok, ok-inj}
use liaozhai.Core.Id.{WorldId}
use liaozhai.Text.Trim.{trim}
use liaozhai.Worlds.Metadata.{WorldEntryDto, WorldMetadata, new_world}
use liaozhai.Worlds.Registry.{check_entries, check_entry, contains, parse_worlds_toml}

-- An entry with all its fields filled, apart from whitespace.
pub record IsFilled (e : WorldEntryDto) : Type 0 where
  pub slug : trim e.slug ≢ []
  pub name : trim e.name ≢ []
  pub short : trim e.short ≢ []

-- No two entries have the same slug, apart from whitespace around it.
abbrev pub Distinct : List WorldEntryDto → Type 0
Distinct [] = Unit
Distinct (e ∷ es) = All (λ f. trim f.slug ≢ trim e.slug) es × Distinct es

abbrev pub world_of : (ℕ → WorldId) → ℕ → WorldEntryDto → WorldMetadata
world_of fresh i e = new_world (fresh i) (trim e.slug) (trim e.name) (trim e.short)

-- The worlds of the entries, in their order.
abbrev pub worlds_of : (ℕ → WorldId) → ℕ → List WorldEntryDto → List WorldMetadata
worlds_of fresh i [] = []
worlds_of fresh i (e ∷ es) = world_of fresh i e ∷ worlds_of fresh (i + 1) es

-- No slug is among the slugs before it.
abbrev FreshFrom : List Text → List WorldEntryDto → Type 0
FreshFrom slugs [] = Unit
FreshFrom slugs (e ∷ es) =
    (contains (trim e.slug) slugs ≡ false) × FreshFrom (trim e.slug ∷ slugs) es

is_empty-ne : (s : Text) → s ≢ [] → is_empty s ≡ false
is_empty-ne [] h = absurd (h refl)
is_empty-ne (c ∷ cs) h = refl

ne-is_empty : (s : Text) → is_empty s ≡ false → s ≢ []
ne-is_empty [] h = cc
ne-is_empty (c ∷ cs) h = λ e. cc

module _ (fresh : ℕ → WorldId) (i : ℕ) (slugs : List Text) (e : WorldEntryDto) where
  check_entry-ok :
      IsFilled e
      → contains (trim e.slug) slugs ≡ false
      → check_entry fresh i slugs e ≡ ok (world_of fresh i e)
  unfolding check_entry
  check_entry-ok f n = rw (is_empty-ne _ f.slug, is_empty-ne _ f.name, is_empty-ne _ f.short, n)

  check_entry_tests :
      {w : WorldMetadata}
      → check_entry fresh i slugs e ≡ ok w
      → (is_empty (trim e.slug) ≡ false)
        × (is_empty (trim e.name) ≡ false)
        × (is_empty (trim e.short) ≡ false)
        × (contains (trim e.slug) slugs ≡ false)
        × (w ≡ world_of fresh i e)
  unfolding check_entry
  check_entry_tests h = ground arith

  check_entry-accepts :
      {w : WorldMetadata}
      → check_entry fresh i slugs e ≡ ok w
      → IsFilled e × (contains (trim e.slug) slugs ≡ false) × (w ≡ world_of fresh i e)
  check_entry-accepts h =
      let (s, n, d, u, r) = check_entry_tests h in
      (record { slug = ne-is_empty _ s; name = ne-is_empty _ n; short = ne-is_empty _ d }, u, r)

module _ (fresh : ℕ → WorldId) where
  check_entries-ok :
      (i : ℕ) (slugs : List Text) (ws : List WorldMetadata) (es : List WorldEntryDto)
      → All IsFilled es
      → FreshFrom slugs es
      → check_entries fresh i slugs ws es ≡ ok (ws ++ worlds_of fresh i es)
  unfolding check_entries
  check_entries-ok i slugs ws [] f n = rw append-nil
  check_entries-ok i slugs ws (e ∷ es) f n =
      rw (check_entry-ok fresh i slugs e f.0 n.0, check_entries)
        (check_entries-ok (i + 1) (trim e.slug ∷ slugs) (ws ++ world_of fresh i e ∷ []) es f.1 n.1
          ∙ ap ok (append_assoc ws (world_of fresh i e ∷ []) (worlds_of fresh (i + 1) es)))

  check_entries-accepts :
      (i : ℕ) (slugs : List Text) (ws : List WorldMetadata) (es : List WorldEntryDto)
      {r : List WorldMetadata}
      → check_entries fresh i slugs ws es ≡ ok r
      → All IsFilled es × FreshFrom slugs es
  unfolding check_entries
  check_entries-accepts i slugs ws [] h = (tt, tt)
  check_entries-accepts i slugs ws (e ∷ es) h =
      let (w, c, later) = bind-ok (check_entry fresh i slugs e) _ _ h in
      let (f, u, v) = check_entry-accepts fresh i slugs e c in
      let rest = check_entries-accepts (i + 1) (w.slug ∷ slugs) (ws ++ w ∷ []) es later in
      ((f, rest.0), (u, subst (λ x. FreshFrom (x.slug ∷ slugs) es) v rest.1))

contains-cons :
    (s t : Text) (slugs : List Text)
    → contains s (t ∷ slugs) ≡ false
    → (s ≢ t) × (contains s slugs ≡ false)
unfolding contains
contains-cons s t slugs h = (differs, ground arith)
  where
    differs : s ≢ t
    differs p = let e : eq_list t s ≡ true = rw p (eq_list_refl t) in ground (arith, e)

cons-contains :
    (s t : Text) (slugs : List Text)
    → s ≢ t
    → contains s slugs ≡ false
    → contains s (t ∷ slugs) ≡ false
unfolding contains
cons-contains s t slugs n h = elim (Bool-cases (eq_list t s)) [
  | inl e ↦ absurd (n (sym (eq_list→eq t s e)))
  | inr f ↦ rw f h
]

abbrev Unseen : List Text → List WorldEntryDto → Type 0
Unseen slugs = All (λ e. contains (trim e.slug) slugs ≡ false)

Unseen-cons :
    (s : Text) (slugs : List Text) (es : List WorldEntryDto)
    → Unseen (s ∷ slugs) es
    → All (λ f. trim f.slug ≢ s) es × Unseen slugs es
Unseen-cons s slugs [] h = (tt, tt)
Unseen-cons s slugs (e ∷ es) h =
    let c = contains-cons (trim e.slug) s slugs h.0 in
    let r = Unseen-cons s slugs es h.1 in ((c.0, r.0), (c.1, r.1))

cons-Unseen :
    (s : Text) (slugs : List Text) (es : List WorldEntryDto)
    → All (λ f. trim f.slug ≢ s) es
    → Unseen slugs es
    → Unseen (s ∷ slugs) es
cons-Unseen s slugs [] n h = tt
cons-Unseen s slugs (e ∷ es) n h =
    (cons-contains (trim e.slug) s slugs n.0 h.0, cons-Unseen s slugs es n.1 h.1)

FreshFrom-Distinct :
    (slugs : List Text) (es : List WorldEntryDto)
    → FreshFrom slugs es
    → Distinct es × Unseen slugs es
FreshFrom-Distinct slugs [] h = (tt, tt)
FreshFrom-Distinct slugs (e ∷ es) h =
    let (d, u) = FreshFrom-Distinct (trim e.slug ∷ slugs) es h.1 in
    let (n, v) = Unseen-cons (trim e.slug) slugs es u in ((n, d), (h.0, v))

Distinct-FreshFrom :
    (slugs : List Text) (es : List WorldEntryDto)
    → Distinct es
    → Unseen slugs es
    → FreshFrom slugs es
Distinct-FreshFrom slugs [] d u = tt
Distinct-FreshFrom slugs (e ∷ es) d u =
    (u.0, Distinct-FreshFrom (trim e.slug ∷ slugs) es d.1 (cons-Unseen _ slugs es d.0 u.1))

Unseen-nil : (es : List WorldEntryDto) → Unseen [] es
unfolding contains
Unseen-nil [] = tt
Unseen-nil (e ∷ es) = (refl, Unseen-nil es)

module _ (fresh : ℕ → WorldId) (from_toml : Text → Result Text (List WorldEntryDto))
    (content : Text) (es : List WorldEntryDto) (decoded : from_toml content ≡ ok es) where
  -- A file that is decoded to entries that are all filled and have distinct slugs is accepted, and
  -- gives one world for each entry, in their order, with the whitespace around each field gone.
  pub parse_worlds_toml-accepts :
      All IsFilled es
      → Distinct es
      → parse_worlds_toml fresh from_toml content ≡ ok (worlds_of fresh 0 es)
  unfolding parse_worlds_toml
  parse_worlds_toml-accepts f d =
      rw decoded (check_entries-ok fresh 0 [] [] es f (Distinct-FreshFrom [] es d (Unseen-nil es)))

  -- A file that is decoded to some entries and accepted has only filled entries with distinct
  -- slugs, and its worlds are those of the entries, in their order and trimmed.
  pub parse_worlds_toml-IsFilled :
      (ws : List WorldMetadata)
      → parse_worlds_toml fresh from_toml content ≡ ok ws
      → All IsFilled es × Distinct es × (ws ≡ worlds_of fresh 0 es)
  unfolding parse_worlds_toml
  parse_worlds_toml-IsFilled ws h =
      let e : parse_worlds_toml fresh from_toml content ≡ check_entries fresh 0 [] [] es =
        rw decoded in
      let (f, u) = check_entries-accepts fresh 0 [] [] es (sym e ∙ h) in
      let d = (FreshFrom-Distinct [] es u).0 in
      (f, d, ok-inj (sym h ∙ parse_worlds_toml-accepts f d))

  -- A file that is decoded to some entries is accepted exactly if all of them are filled and their
  -- slugs are distinct, and then gives one world for each entry, in their order, with the whitespace
  -- around each field gone.
  pub parse_worlds_toml_iff :
      (ws : List WorldMetadata)
      → (parse_worlds_toml fresh from_toml content ≡ ok ws)
        ↔ (All IsFilled es × Distinct es × (ws ≡ worlds_of fresh 0 es))
  parse_worlds_toml_iff ws =
      (parse_worlds_toml-IsFilled ws, λ h. parse_worlds_toml-accepts h.0 h.1 ∙ ap ok (sym h.2))
