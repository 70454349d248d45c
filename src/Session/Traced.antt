-- ===== src/Session/Traced.antt =====
-- hook.go, row.go: the order in which hooks run around a statement.
use mathlib.Core.List.{reverse, reverse_aux, reverse-reverse}
use row.Prelude.{
  ℕ, suc, ◌+◌, List, [], ◌∷◌, ◌++◌, map, ◌≡◌, sym, ap, ◌∙◌, arith, some, Bytes, length, length-map,
  get_elem?, append-nil, append_assoc,
}
use row.Dialect.Engines.{Dialect}
use row.Bind.Value.{Value}
use row.Session.Run.{
  Reply, QueryInfo, Hook, Driver, ExecResult, fire_before, fire_after_from, fire_after, query_info,
  run_query, run_exec,
}

-- What hooks that note their calls see: a hook begins with a statement, a statement is sent, a hook
-- ends with it.
pub data Event : Type 0 where
  began : ℕ → Event
  sent : Event
  ended : ℕ → Event

-- a hook that notes its calls under a number
abbrev pub noting : {C : Type 0} → ℕ → Hook (List Event) C
noting n = record {
  before_query = λ ctx info w. (w ++ began n ∷ [], ctx, info);
  after_query = λ ctx info w. (w ++ ended n ∷ [], info);
}

-- A driver that notes what it is sent, and replies by a function of it.
abbrev pub noting_driver :
    {C R : Type 0}
    → (C → Bytes → List Value → Reply R)
    → (C → Bytes → List Value → Reply ExecResult)
    → Driver (List Event) C R
noting_driver rows res = record {
  query_context = λ ctx q a w. (w ++ sent ∷ [], rows ctx q a);
  exec_context = λ ctx q a w. (w ++ sent ∷ [], res ctx q a);
  now = length;
}

get_elem?-reverse_aux :
    {A : Type 0} (f : ℕ → A) (rs ns : List ℕ) (j : ℕ)
    → get_elem? (map f (reverse_aux rs ns)) (length rs + j) ≡ get_elem? (map f ns) j
get_elem?-reverse_aux f [] ns j = ap (get_elem? (map f ns)) (omega arith)
get_elem?-reverse_aux f (r ∷ rs) ns j =
    let e : suc (length rs) + j ≡ length rs + suc j = omega arith in
    ap (get_elem? (map f (reverse_aux rs (r ∷ ns)))) e ∙ get_elem?-reverse_aux f rs (r ∷ ns) (suc j)

length-reverse_aux : (rs ns : List ℕ) → length (reverse_aux rs ns) ≡ length rs + length ns
length-reverse_aux [] ns = omega arith
length-reverse_aux (r ∷ rs) ns = omega (arith, length-reverse_aux rs (r ∷ ns))

abbrev pub around : List ℕ → List Event
around ns = map began ns ++ (sent ∷ map ended (reverse ns))

sent_between :
    (w : List Event) (ns : List ℕ)
    → ((w ++ map began ns) ++ sent ∷ []) ++ map ended (reverse ns) ≡ w ++ around ns
sent_between w ns =
    append_assoc (w ++ map began ns) (sent ∷ []) (map ended (reverse ns))
    ∙ append_assoc w (map began ns) (sent ∷ map ended (reverse ns))

module _ {C : Type 0} where
  fire_before-noting :
      (ns : List ℕ) (ctx : C) (info : QueryInfo) (w : List Event)
      → fire_before (map noting ns) ctx info w ≡ (w ++ map began ns, ctx, info)
  unfolding fire_before
  fire_before-noting [] ctx info w = ap (λ x. (x, ctx, info)) (sym (append-nil w))
  fire_before-noting (n ∷ ns) ctx info w =
      fire_before-noting ns ctx info (w ++ began n ∷ [])
      ∙ ap (λ x. (x, ctx, info)) (append_assoc w (began n ∷ []) (map began ns))

  -- the loop over hooks of which the first are `rs`, the last one first
  fire_after_from-noting :
      (rs ns : List ℕ) (ctx : C) (info : QueryInfo) (w : List Event)
      → fire_after_from (length rs) (map noting (reverse_aux rs ns)) ctx info w ≡ w ++ map ended rs
  unfolding fire_after_from
  fire_after_from-noting [] ns ctx info w = sym (append-nil w)
  fire_after_from-noting (r ∷ rs) ns ctx info w =
      let found : get_elem? (map (noting {C = C}) (reverse_aux rs (r ∷ ns))) (length rs)
          ≡ some (noting r) =
        ap (get_elem? (map noting (reverse_aux rs (r ∷ ns)))) (omega arith)
        ∙ get_elem?-reverse_aux noting rs (r ∷ ns) 0 in
      rw (found, fire_after_from)
        (fire_after_from-noting rs (r ∷ ns) ctx info (w ++ ended r ∷ [])
          ∙ append_assoc w (ended r ∷ []) (map ended rs))

  fire_after-noting :
      (ns : List ℕ) (ctx : C) (info : QueryInfo) (w : List Event)
      → fire_after (map noting ns) ctx info w ≡ w ++ map ended (reverse ns)
  fire_after-noting ns ctx info w =
      let n : length (map (noting {C = C}) ns) ≡ length (reverse ns) =
        omega (arith, length-map (noting {C = C}) ns, length-reverse_aux ns []) in
      ap (λ k. fire_after_from k (map noting ns) ctx info w) n
      ∙ ap (λ ms. fire_after_from (length (reverse ns)) (map noting ms) ctx info w)
          (sym (reverse-reverse ns))
      ∙ fire_after_from-noting (reverse ns) [] ctx info w

  module _ {R : Type 0} (rows : C → Bytes → List Value → Reply R)
      (res : C → Bytes → List Value → Reply ExecResult) (d : Dialect) where
    -- Hooks that note their calls begin in their order, then the statement is sent, once, then they
    -- end, the last one first. So it is in `run_query` and in `run_exec`, whatever the driver replies.
    pub run-around :
        (ns : List ℕ) (ctx : C) (op query : Bytes) (args : List Value) (w : List Event)
        → ((run_query (noting_driver rows res) (map noting ns) d ctx op query args w).0
            ≡ w ++ around ns)
          × ((run_exec (noting_driver rows res) (map noting ns) d ctx op query args w).0
              ≡ w ++ around ns)
    unfolding run_query run_exec
    run-around ns ctx op query args w =
        let info = query_info (noting_driver rows res) (map noting ns) d op query args w in
        let begun = fire_before (map noting ns) ctx info w in
        let all : (begun.0 ++ sent ∷ []) ++ map ended (reverse ns) ≡ w ++ around ns =
          ap (λ x. (x.0 ++ sent ∷ []) ++ map ended (reverse ns)) (fire_before-noting ns ctx info w)
          ∙ sent_between w ns in
        (
          fire_after-noting ns begun.1 _ (begun.0 ++ sent ∷ []) ∙ all,
          fire_after-noting ns begun.1 _ (begun.0 ++ sent ∷ []) ∙ all,
        )
