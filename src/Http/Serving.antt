-- ===== src/Http/Serving.antt =====
-- What src/http.rs answers.
use den_atlas.Prelude.{
  ℕ, ◌+◌, ◌-◌, ◌≡◌, refl, true, false, Bool, [], Option, none, arith, ◌&&◌, length, take, drop,
  length-take, length-drop, inl, inr, Option-cases, Bool-cases,
}
use den_atlas.Prelude.Bytes.{Text}
use den_atlas.Http.{
  Method, head, other, Headers, Servable, Response, RangeResult, range, unsatisfiable, no_range,
  quoted, serve, build, whole, partial, refuse, serve_range, is_not_modified, not_modified, asked,
  if_range_matches,
}
use den_atlas.Http.Range.{Inside, parse_range-Inside}

-- What a GET may be answered with: the body as it is, one slice of it, or nothing.
pub data Served (s : Servable) : Response → Type 0 where
  unchanged : (r : Response) → r.status ≡ 304 → r.body ≡ [] → Served s r
  entire : (r : Response) → r.status ≡ 200 → r.body ≡ s.body → Served s r
  slice :
      (r : Response) (start end : ℕ)
      → r.status ≡ 206
      → Inside start end (length s.body)
      → r.body ≡ take (end - start + 1) (drop start s.body)
      → length r.body ≡ end - start + 1
      → Served s r
  refused : (r : Response) → r.status ≡ 416 → r.body ≡ [] → Served s r

length-slice :
    (start end : ℕ) (body : Text)
    → Inside start end (length body)
    → length (take (end - start + 1) (drop start body)) ≡ end - start + 1
length-slice start end body inside =
    rw (length-take (end - start + 1) (drop start body), length-drop start body) (ground arith)

asked-Inside :
    (h : Headers) (s : Servable) (a b : ℕ) → asked h s ≡ range a b → Inside a b (length s.body)
unfolding asked
asked-Inside h s a b e = elim (Option-cases h.range) [
  | inl p ↦ absurd (ground arith)
  | inr (header, p) ↦ ground (arith, parse_range-Inside header (length s.body) a b)
]

asked_ignored :
    (h : Headers) (s : Servable)
    → s.accept_ranges && if_range_matches h (quoted s.etag_base) s.last_modified ≡ false
    → asked h s ≡ no_range
unfolding asked
asked_ignored h s e = rw e refl

asked_without : (h : Headers) (s : Servable) → h.range ≡ none → asked h s ≡ no_range
unfolding asked
asked_without h s e = ground arith

module _ (parse_date : Text → Option ℕ) (valid_value : Text → Bool) where
  abbrev answer : Method → Headers → Servable → Response
  answer m h s = serve parse_date valid_value m h s

  abbrev pub revalidated : Headers → Servable → Bool
  revalidated h s = is_not_modified parse_date h (quoted s.etag_base) s.last_modified

  pub serve-fresh :
      (m : Method) (h : Headers) (s : Servable)
      → revalidated h s ≡ true
      → answer m h s ≡ not_modified parse_date valid_value s
  unfolding serve
  serve-fresh m h s e = rw e refl

  pub serve-changed :
      (m : Method) (h : Headers) (s : Servable)
      → revalidated h s ≡ false
      → answer m h s ≡ serve_range parse_date valid_value m s (asked h s)
  unfolding serve
  serve-changed m h s e = rw e refl

  serve_range-head :
      (s : Servable) (r : RangeResult)
      → serve_range parse_date valid_value head s r
        ≡ record (serve_range parse_date valid_value other s r) { body = [] }
  unfolding serve_range whole partial refuse build
  serve_range-head s (range a b) = refl
  serve_range-head s unsatisfiable = refl
  serve_range-head s no_range = refl

  -- HEAD is answered as the same request with GET is, without the body.
  pub serve-head :
      (h : Headers) (s : Servable)
      → serve parse_date valid_value head h s
        ≡ record (serve parse_date valid_value other h s) { body = [] }
  unfolding not_modified build
  serve-head h s = elim (Bool-cases (revalidated h s)) [
    | inl e ↦ rw (serve-fresh head h s e, serve-fresh other h s e) refl
    | inr e ↦
        rw (serve-changed head h s e, serve-changed other h s e) (serve_range-head s (asked h s))
  ]

  -- Where a representation has no ranges, or If-Range does not match it, the request is answered as
  -- one without a Range header.
  pub serve-no_range :
      (m : Method) (h : Headers) (s : Servable)
      → s.accept_ranges && if_range_matches h (quoted s.etag_base) s.last_modified ≡ false
      → serve parse_date valid_value m h s
        ≡ serve parse_date valid_value m (record h { range = none }) s
  unfolding serve is_not_modified
  serve-no_range m h s e =
      rw (asked_ignored h s e, asked_without (record h { range = none }) s refl) refl

  serve_range-Served :
      (s : Servable) (r : RangeResult)
      → ((a b : ℕ) → r ≡ range a b → Inside a b (length s.body))
      → Served s (serve_range parse_date valid_value other s r)
  unfolding serve_range whole partial refuse build
  serve_range-Served s (range a b) h =
      slice _ a b refl (h a b refl) refl (length-slice a b s.body (h a b refl))
  serve_range-Served s unsatisfiable h = refused _ refl refl
  serve_range-Served s no_range h = entire _ refl refl

  -- Whatever a GET asks for, it is answered with 304 and nothing, with 200 and the body, with 206 and
  -- a slice of the body that is not empty and as long as its ends say, or with 416 and nothing.
  pub serve-Served :
      (h : Headers) (s : Servable) → Served s (serve parse_date valid_value other h s)
  unfolding not_modified build
  serve-Served h s = elim (Bool-cases (revalidated h s)) [
    | inl e ↦ rw (serve-fresh other h s e) (unchanged _ refl refl)
    | inr e ↦ rw (serve-changed other h s e) (serve_range-Served s (asked h s) (asked-Inside h s))
  ]
