-- ===== src/Config/Selection.antt =====
-- Which providers the path of src/config.rs selects.
use den_atlas.Prelude.{
  ◌+◌, ◌≤◌, ◌≡◌, subst, refl, true, false, List, [], ◌∷◌, ◌++◌, some, arith, inl, inr, length, All,
  Option-cases, Bool-cases, ◌||◌, if◌then◌else◌,
}
use den_atlas.Prelude.Bytes.{Text, same_text, same_text-eq, same_text_refl, split, split_once}
use den_atlas.Config.{
  Config, Provider, selected, provider_by_code, add_code, add_codes, parse_region, parse,
}

pub OneEach : List Provider → Type 0
OneEach [] = Unit {0}
OneEach (p ∷ ps) = (selected p.code ps ≡ false) × OneEach ps

pub AllIn : List Provider → List Provider → Type 0
AllIn table ps = All (λ p. selected p.code table ≡ true) ps

same_text_comm : (s t : Text) → same_text s t ≡ same_text t s
unfolding same_text
same_text_comm [] [] = refl
same_text_comm [] (b ∷ t) = refl
same_text_comm (a ∷ s) [] = refl
same_text_comm (a ∷ s) (b ∷ t) = ground (arith, same_text_comm s t)

pub selected-append :
    (code : Text) (ps : List Provider) (p : Provider)
    → selected code (ps ++ p ∷ []) ≡ selected code ps || same_text p.code code
unfolding selected
selected-append code [] p = ground arith
selected-append code (q ∷ ps) p = ground (arith, selected-append code ps p)

OneEach-append :
    (ps : List Provider) (p : Provider)
    → OneEach ps
    → selected p.code ps ≡ false
    → OneEach (ps ++ p ∷ [])
unfolding OneEach selected
OneEach-append [] p h n = (refl, tt)
OneEach-append (q ∷ ps) p h n =
    ground
      (arith, OneEach-append ps p h.1, selected-append q.code ps p, same_text_comm q.code p.code)

AllIn-append :
    (table ps : List Provider) (p : Provider)
    → AllIn table ps
    → selected p.code table ≡ true
    → AllIn table (ps ++ p ∷ [])
unfolding AllIn
AllIn-append table [] p h s = (s, tt)
AllIn-append table (q ∷ ps) p h s = (h.0, AllIn-append table ps p h.1 s)

provider_by_code-selected :
    (table : List Provider) (code : Text) (p : Provider)
    → provider_by_code table code ≡ some p
    → (selected p.code table ≡ true) × (p.code ≡ code)
unfolding provider_by_code selected
provider_by_code-selected [] code p e = absurd (ground arith)
provider_by_code-selected (q ∷ table) code p e =
    ground (
      arith,
      provider_by_code-selected table code p,
      same_text-eq q.code code,
      same_text_refl q.code,
    )

-- A selection from the table.
abbrev pub IsSelection : List Provider → List Provider → Type 0
IsSelection table ps = OneEach ps × AllIn table ps

add_code-IsSelection :
    (table ps : List Provider) (code : Text)
    → IsSelection table ps
    → IsSelection table (add_code table ps code)
unfolding add_code
add_code-IsSelection table ps code h = elim (Option-cases (provider_by_code table code)) [
  | inl p ↦ ground arith
  | inr (q, p) ↦ ground (
    arith,
    provider_by_code-selected table code q p,
    OneEach-append ps q h.0,
    AllIn-append table ps q h.1,
  )
]

add_codes-IsSelection :
    (table ps : List Provider) (codes : List Text)
    → IsSelection table ps
    → IsSelection table (add_codes table ps codes)
unfolding add_codes
add_codes-IsSelection table ps [] h = h
add_codes-IsSelection table ps (c ∷ cs) h =
    add_codes-IsSelection table (add_code table ps c) cs (add_code-IsSelection table ps c h)

unfoldable without : Text → List Provider → List Provider
without code [] = []
without code (p ∷ ps) = if same_text p.code code then ps else p ∷ without code ps

length-without : (code : Text) (ps : List Provider) → length ps ≤ length (without code ps) + 1
unfolding without
length-without code [] = omega arith
length-without code (p ∷ ps) = ground (arith, length-without code ps)

selected-without :
    (code c : Text) (ps : List Provider)
    → selected c ps ≡ false
    → selected c (without code ps) ≡ false
unfolding without selected
selected-without code c [] h = refl
selected-without code c (p ∷ ps) h = ground (arith, selected-without code c ps)

OneEach-without : (code : Text) (ps : List Provider) → OneEach ps → OneEach (without code ps)
unfolding OneEach without
OneEach-without code [] h = tt
OneEach-without code (p ∷ ps) h =
    ground (arith, OneEach-without code ps h.1, selected-without code p.code ps h.0)

AllIn-tail :
    (q : Provider) (table ps : List Provider)
    → selected q.code ps ≡ false
    → AllIn (q ∷ table) ps
    → AllIn table ps
unfolding AllIn selected
AllIn-tail q table [] n a = tt
AllIn-tail q table (p ∷ ps) n a =
    ground (arith, AllIn-tail q table ps, a.0, a.1, same_text_comm p.code q.code)

AllIn-without :
    (q : Provider) (table ps : List Provider)
    → OneEach ps
    → AllIn (q ∷ table) ps
    → AllIn table (without q.code ps)
unfolding OneEach AllIn without selected
AllIn-without q table [] h a = tt
AllIn-without q table (p ∷ ps) h a = elim (Bool-cases (same_text p.code q.code)) [
  | inl e ↦ rw (e) (
      AllIn-tail q table ps (subst (λ c. selected c ps ≡ false) (same_text-eq p.code q.code e) h.0)
        a.1)
  | inr e ↦
      rw (e) (ground (arith, a.0, same_text_comm p.code q.code), AllIn-without q table ps h.1 a.1)
]

length-AllIn : (table ps : List Provider) → OneEach ps → AllIn table ps → length ps ≤ length table
unfolding AllIn selected
length-AllIn [] [] h a = omega arith
length-AllIn [] (p ∷ ps) h a = absurd (ground arith)
length-AllIn (q ∷ table) ps h a = omega (
  arith,
  length-without q.code ps,
  length-AllIn table (without q.code ps) (OneEach-without q.code ps h)
      (AllIn-without q table ps h a),
)

parse-add_codes :
    (table : List Provider) (segment : Text) (c : Config)
    → parse table segment ≡ some c
    → (codes : List Text) × (c.providers ≡ add_codes table [] codes)
unfolding parse
parse-add_codes table segment c e = elim (Option-cases (split_once b'_' segment)) [
  | inl p ↦ absurd (ground arith)
  | inr ((a, b), p) ↦ elim (Option-cases (parse_region a)) [
    | inl q ↦ absurd (ground arith)
    | inr (reg, q) ↦ (split b'-' b, ground arith)
  ]
]

-- The providers that a segment selects are of the table, each once, and so no more than the table has,
-- however often the segment repeats its codes and whatever else it names.
pub parse-IsSelection :
    (table : List Provider) (segment : Text) (c : Config)
    → parse table segment ≡ some c
    → IsSelection table c.providers × (length c.providers ≤ length table)
unfolding OneEach AllIn
parse-IsSelection table segment c e =
    let (codes, p) = parse-add_codes table segment c e in
    let selection = add_codes-IsSelection table [] codes (tt, tt) in
    rw p (selection, length-AllIn table (add_codes table [] codes) selection.0 selection.1)
