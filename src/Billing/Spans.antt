-- ===== src/Billing/Spans.antt =====
-- The rows of src/billing.rs, end to end in one list, are read back whole.
use den_atlas.Prelude.{
  ℕ, zero, suc, ◌+◌, ◌-◌, ◌^◌, ◌≤◌, ◌≡◌, ◌∙◌, refl, sym, ap, subst, List, [], ◌∷◌, ◌++◌, Option,
  some, arith, ltb, inl, inr, Bool-cases, length, length-append, get_elem?, take, drop,
}
use den_atlas.Prelude.Spans.{
  get_elem?-append_left, get_elem?-append_last, span-append, span-append_left,
}
use den_atlas.Prelude.Results.{ok, ok_eq}
use den_atlas.Billing.{Billing, Role, billed_row, roles_of, add_row, add_rows}

-- What a row holds, from one start to the next.
pub record Spans (b : Billing) (row : ℕ) (content : List (ℕ × ℕ)) : Type 0 where
  pub from : ℕ
  pub to : ℕ
  pub starts_at : get_elem? b.starts row ≡ some from
  pub ends_at : get_elem? b.starts (row + 1) ≡ some to
  pub forward : from ≤ to
  pub inside : to ≤ length b.billed
  pub holds : take (to - from) (drop from b.billed) ≡ content

-- As many rows, and the last start is the end of all.
abbrev pub Closed : Billing → ℕ → Type 0
Closed b rows = (length b.starts ≡ rows + 1) × (get_elem? b.starts rows ≡ some (length b.billed))

module _ (no_person : ℕ) (credits : ℕ × ℕ → Option (List Role)) (entities : List (ℕ × List ℕ)) where
  abbrev row_of : ℕ → List (ℕ × ℕ)
  row_of packed = billed_row entities (roles_of no_person credits packed)

  add_row-kept :
      (packed : ℕ) (b : Billing) (row : ℕ) (content : List (ℕ × ℕ))
      → Spans b row content
      → Spans (add_row no_person credits entities packed b) row content
  unfolding add_row
  add_row-kept packed b row content s = record {
    from = s.from;
    to = s.to;
    starts_at = get_elem?-append_left b.starts _ row s.from s.starts_at;
    ends_at = get_elem?-append_left b.starts _ (row + 1) s.to s.ends_at;
    forward = s.forward;
    inside = omega (arith, s.inside, length-append b.billed (row_of packed));
    holds =
        span-append_left (s.to - s.from) s.from b.billed (row_of packed)
          (omega (arith, s.forward, s.inside))
        ∙ s.holds;
  }

  add_row-new :
      (packed : ℕ) (b : Billing) (rows : ℕ)
      → Closed b rows
      → Spans (add_row no_person credits entities packed b) rows (row_of packed)
  unfolding add_row
  add_row-new packed b rows c = record {
    from = length b.billed;
    to = length (b.billed ++ row_of packed);
    starts_at = get_elem?-append_left b.starts _ rows (length b.billed) c.1;
    ends_at =
        subst
          (λ i.
            get_elem? (b.starts ++ length (b.billed ++ row_of packed) ∷ []) i
            ≡ some (length (b.billed ++ row_of packed)))
          c.0 (get_elem?-append_last b.starts (length (b.billed ++ row_of packed)));
    forward = omega (arith, length-append b.billed (row_of packed));
    inside = omega arith;
    holds = span-append b.billed (row_of packed);
  }

  add_row-Closed :
      (packed : ℕ) (b : Billing) (rows : ℕ)
      → Closed b rows
      → Closed (add_row no_person credits entities packed b) (suc rows)
  unfolding add_row
  add_row-Closed packed b rows c = (
    omega (arith, c.0, length-append b.starts (length (b.billed ++ row_of packed) ∷ [])),
    subst
        (λ i.
          get_elem? (b.starts ++ length (b.billed ++ row_of packed) ∷ []) i
          ≡ some (length (b.billed ++ row_of packed)))
        (c.0 ∙ omega arith) (get_elem?-append_last b.starts (length (b.billed ++ row_of packed))),
  )

  abbrev added : ℕ → Billing → Billing
  added packed b = add_row no_person credits entities packed b

  add_rows-ok :
      (packed : ℕ) (keys : List ℕ) (b done : Billing)
      → add_rows no_person credits entities (packed ∷ keys) b ≡ ok done
      → add_rows no_person credits entities keys (added packed b) ≡ ok done
  unfolding add_rows
  add_rows-ok packed keys b done h =
      elim (Bool-cases
        (ltb (length (add_row no_person credits entities packed b).billed) (2 ^ 32))) [
          | inl e ↦ ground arith
          | inr e ↦ absurd (ground arith)
        ]

  add_rows_done : (b done : Billing) → add_rows no_person credits entities [] b ≡ ok done → b ≡ done
  unfolding add_rows
  add_rows_done b done h = ok_eq (ok b) b done refl h

  add_rows-kept :
      (keys : List ℕ) (b done : Billing) (row : ℕ) (content : List (ℕ × ℕ))
      → add_rows no_person credits entities keys b ≡ ok done
      → Spans b row content
      → Spans done row content
  add_rows-kept [] b done row content h s =
      subst (λ x. Spans x row content) (add_rows_done b done h) s
  add_rows-kept (packed ∷ keys) b done row content h s =
      add_rows-kept keys (added packed b) done row content (add_rows-ok packed keys b done h)
        (add_row-kept packed b row content s)

  pub add_rows-on_tmdb :
      (keys : List ℕ) (b done : Billing)
      → add_rows no_person credits entities keys b ≡ ok done
      → done.on_tmdb ≡ b.on_tmdb
  unfolding add_row
  add_rows-on_tmdb [] b done h = ap (λ x. x.on_tmdb) (sym (add_rows_done b done h))
  add_rows-on_tmdb (packed ∷ keys) b done h =
      add_rows-on_tmdb keys (added packed b) done (add_rows-ok packed keys b done h)

  pub add_rows-Spans :
      (keys : List ℕ) (b done : Billing) (rows i packed : ℕ)
      → Closed b rows
      → add_rows no_person credits entities keys b ≡ ok done
      → get_elem? keys i ≡ some packed
      → Spans done (rows + i) (row_of packed)
  add_rows-Spans [] b done rows i packed c h e = absurd (ground arith)
  add_rows-Spans (next ∷ keys) b done rows zero packed c h e =
      let same : next ≡ packed = ground arith in
      subst (λ n. Spans done n (row_of packed)) (omega arith)
        (subst (λ p. Spans done rows (row_of p)) same
          (add_rows-kept keys (added next b) done rows (row_of next)
            (add_rows-ok next keys b done h) (add_row-new next b rows c)))
  add_rows-Spans (next ∷ keys) b done rows (suc i) packed c h e =
      subst (λ n. Spans done n (row_of packed)) (omega arith)
        (add_rows-Spans keys (added next b) done (suc rows) i packed (add_row-Closed next b rows c)
          (add_rows-ok next keys b done h) e)
