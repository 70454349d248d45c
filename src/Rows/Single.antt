-- ===== src/Rows/Single.antt =====
-- scan.go: `One` returns a value exactly when `All` returns this value alone.
use row.Prelude.{
  ◌≤◌, true, List, [], ◌∷◌, ◌++◌, ◌≡◌, ◌↔◌, refl, sym, ap, ◌∙◌, inl, inr, arith, Option, none, some,
  Bytes, length, length-append,
}
use row.Errors.{Err}
use row.Bind.Value.{Value}
use row.Session.Run.{Reply, got, met}
use row.Rows.Deliver.{
  RowSet, RowErrors, row_value, reader_for, collect_loop, collect_rows, single_end, single_row,
  single_rows, collect, single,
}
use row.Rows.Items.{Reply-cases}

module _ {T : Type 0} (new_reader : List Bytes → Reply (List Value → Reply T))
    (wrap_error : Err → Err) where
  -- A result has at least the values that were there.
  collect_loop-longer :
      (read : List Value → Reply T) (failure : Option Err) (rs : List (Reply (List Value)))
      (out xs : List T)
      → collect_loop new_reader wrap_error read failure rs out ≡ got xs
      → length out ≤ length xs
  unfolding collect_loop
  collect_loop-longer read none [] out xs h = let e : out ≡ xs = cc in omega (arith, ap length e)
  collect_loop-longer read (some e) [] out xs h = cc
  collect_loop-longer read failure (r ∷ rs) out xs h = elim (Reply-cases (row_value read r)) [
    | inl (v, is_got) ↦
        let n =
          collect_loop-longer read failure rs (out ++ v ∷ []) xs
            (sym (rw (is_got, collect_loop) refl) ∙ h) in
        omega (arith, n, length-append out (v ∷ []))
    | inr (e, is_met) ↦
        let x : met (wrap_error e) ≡ got xs = sym (rw (is_met, collect_loop) refl) ∙ h in cc
  ]

  -- behind a row whose value is `v`
  single_end-collect :
      (errors : RowErrors) (read : List Value → Reply T) (early failure : Option Err)
      (rs : List (Reply (List Value))) (v x : T)
      → (single_end new_reader wrap_error errors true early failure rs v ≡ got x)
        ↔ (collect_loop new_reader wrap_error read failure rs (v ∷ []) ≡ got (x ∷ []))
  unfolding collect_loop
  single_end-collect errors read early none [] v x =
      (λ h. let e : v ≡ x = cc in ap (λ y. got (y ∷ [])) e, λ h. let e : v ≡ x = cc in ap got e)
  single_end-collect errors read early (some e) [] v x = (λ h. cc, λ h. cc)
  single_end-collect errors read early failure (r ∷ rs) v x = (
    λ h. cc,
    λ h. elim (Reply-cases (row_value read r)) [
      | inl (v', is_got) ↦
          let n =
            collect_loop-longer read failure rs (v ∷ v' ∷ []) (x ∷ [])
              (sym (rw (is_got, collect_loop) refl) ∙ h) in
          absurd (omega (arith, n))
      | inr (e, is_met) ↦
          let y : met (wrap_error e) ≡ got (x ∷ []) = sym (rw (is_met, collect_loop) refl) ∙ h in cc
    ],
  )

  single_row-collect :
      (errors : RowErrors) (read : List Value → Reply T) (early failure : Option Err)
      (rs : List (Reply (List Value))) (x : T)
      → (single_row new_reader wrap_error errors true read early failure rs ≡ got x)
        ↔ (collect_loop new_reader wrap_error read failure rs [] ≡ got (x ∷ []))
  unfolding single_row collect_loop
  single_row-collect errors read early none [] x = (λ h. cc, λ h. cc)
  single_row-collect errors read early (some e) [] x = (λ h. cc, λ h. cc)
  single_row-collect errors read early failure (r ∷ rs) x = elim (Reply-cases (row_value read r)) [
    | inl (v, is_got) ↦
        rw (is_got, single_row, collect_loop) (single_end-collect errors read early failure rs v x)
    | inr (e, is_met) ↦ rw (is_met, single_row, collect_loop) (λ h. cc, λ h. cc)
  ]

  -- With the same reply of `run_query`, `single` that demands exactly one row returns a value if and
  -- only if `collect` returns the list of this value alone.
  pub single-collect :
      {W : Type 0} (errors : RowErrors) (w : W) (reply : Reply (RowSet W)) (x : T)
      → ((single new_reader wrap_error errors true (w, reply)).1 ≡ got x)
        ↔ ((collect new_reader wrap_error (w, reply)).1 ≡ got (x ∷ []))
  unfolding single collect
  single-collect errors w (met e) x = (λ h. cc, λ h. cc)
  single-collect errors w (got rows) x = elim (Reply-cases (reader_for new_reader rows.columns)) [
    | inl (read, is_got) ↦
        rw (is_got, single_rows, collect_rows)
          (single_row-collect errors read rows.early rows.failure rows.pending x)
    | inr (e, is_met) ↦ rw (is_met, single_rows, collect_rows) (λ h. cc, λ h. cc)
  ]
