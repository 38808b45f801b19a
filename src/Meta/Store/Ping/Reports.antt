-- ===== src/Meta/Store/Ping/Reports.antt =====
-- UpdateNodeInfo of src/meta/zp_meta_info_store.cc: the offsets of a node after its ping.
use Prim.Native.String.{String}
use text.Mathlib.Text.{◌==◌ as str_eq}
use text.Mathlib.TextEquality.{eq_iff}
use zeppelin.Base.{
  ℕ, ◌≡◌, refl, sym, ap, ◌∙◌, subst, inl, inr, ◌⊎◌, Bool, true, false, ◌||◌, Option, none, some,
  List, [], ◌∷◌, if◌then◌else◌, arith, Option-cases, Bool-cases,
}
use zeppelin.Base.Assoc.{lookup, insert, erase, lookup-insert, lookup-erase}
use zeppelin.Base.Sets.{is_some}
use zeppelin.Env.{ok, not_found}
use zeppelin.Meta.Data.{Node, NodeInfo, NodeOffset, Formats}
use zeppelin.Meta.Snapshot.{info_or_new, alive}
use zeppelin.Meta.Store.{Store, initialed}
use zeppelin.Meta.Store.Ping.{
  Report, Asks, clears, drops, sets, asks, drop_offset, set_offset, update_cleared, update_offsets,
  touched, update_node_info,
}

module _ (fm : Formats) where
  -- What the last report on a key says of its offset, and `before` if there is none.
  abbrev pub last_report : String → List Report → Option NodeOffset → Option NodeOffset
  last_report key [] before = before
  last_report key (r ∷ rs) before = last_report key rs (elim (asks fm r) [
    | clears ↦ before
    | drops k ↦ if str_eq k key then none else before
    | sets k o ↦ if str_eq k key then some o else before
  ])

  abbrev pub asks_to_clear : Asks → Bool
  asks_to_clear clears = true
  asks_to_clear (drops k) = false
  asks_to_clear (sets k o) = false

  abbrev pub has_clear : List Report → Bool
  has_clear [] = false
  has_clear (r ∷ rs) = asks_to_clear (asks fm r) || has_clear rs

  -- The offset that a node has for a key.
  abbrev pub offset_at : String → String → List (String × NodeInfo) → Option NodeOffset
  offset_at node key infos = lookup key (info_or_new (lookup node infos)).offsets

  lookup_here :
      (node : String) (i : NodeInfo) (infos : List (String × NodeInfo))
      → lookup node (insert node i infos) ≡ some i
  lookup_here node i infos = ground (arith, lookup-insert node node i infos, eq_iff node node)

  offset_at-insert :
      (node key : String) (i : NodeInfo) (infos : List (String × NodeInfo))
      → offset_at node key (insert node i infos) ≡ lookup key i.offsets
  offset_at-insert node key i infos =
      ap (λ (o : Option NodeInfo). lookup key (info_or_new o).offsets) (lookup_here node i infos)

  offset_at-drop_offset :
      (node k key : String) (infos : List (String × NodeInfo))
      → offset_at node key (drop_offset fm node k (lookup node infos) infos)
        ≡ (if str_eq k key then none else offset_at node key infos)
  unfolding lookup
  offset_at-drop_offset node k key infos = elim (Option-cases (lookup node infos)) [
    | inl e ↦ rw e (ground arith)
    | inr (i, e) ↦ rw e (
        offset_at-insert node key (record i { offsets = erase k i.offsets }) infos
        ∙ lookup-erase k key i.offsets)
  ]

  offset_at-set_offset :
      (node k key : String) (o : NodeOffset) (infos : List (String × NodeInfo))
      → offset_at node key (set_offset fm node k o infos)
        ≡ (if str_eq k key then some o else offset_at node key infos)
  offset_at-set_offset node k key o infos =
      let i = info_or_new (lookup node infos) in
      offset_at-insert node key (record i { offsets = insert k o i.offsets }) infos
      ∙ lookup-insert k key o i.offsets

  Asks-cases :
      (a : Asks)
      → (a ≡ clears)
        ⊎ ((k : String) × (a ≡ drops k))
        ⊎ ((k : String) × (o : NodeOffset) × (a ≡ sets k o))
  Asks-cases clears = inl refl
  Asks-cases (drops k) = inr (inl (k, refl))
  Asks-cases (sets k o) = inr (inr (k, o, refl))

  update_cleared-last_report :
      (node key : String) (rs : List Report) (infos : List (String × NodeInfo))
      → offset_at node key (update_cleared fm node rs infos)
        ≡ last_report key rs (offset_at node key infos)
  unfolding update_cleared
  update_cleared-last_report node key [] infos = refl
  update_cleared-last_report node key (r ∷ rs) infos = elim (Asks-cases (asks fm r)) [
    | inl e ↦ rw (update_cleared, e) (update_cleared-last_report node key rs infos)
    | inr (inl (k, e)) ↦
        rw (update_cleared, e)
          (update_cleared-last_report node key rs (drop_offset fm node k (lookup node infos) infos)
            ∙ ap (last_report key rs) (offset_at-drop_offset node k key infos))
    | inr (inr (k, o, e)) ↦
        rw (update_cleared, e)
          (update_cleared-last_report node key rs (set_offset fm node k o infos)
            ∙ ap (last_report key rs) (offset_at-set_offset node k key o infos))
  ]

  -- Whether the store knows the node.
  abbrev pub knows : String → List (String × NodeInfo) → Bool
  knows node infos = is_some (lookup node infos)

  knows-drop_offset :
      (node k : String) (infos : List (String × NodeInfo))
      → knows node infos ≡ true
      → knows node (drop_offset fm node k (lookup node infos) infos) ≡ true
  knows-drop_offset node k infos h = elim (Option-cases (lookup node infos)) [
    | inl e ↦ absurd (ground (arith, subst (λ (o : Option NodeInfo). is_some o ≡ true) e h))
    | inr (i, e) ↦
        rw e (ap is_some (lookup_here node (record i { offsets = erase k i.offsets }) infos))
  ]

  knows-set_offset :
      (node k : String) (o : NodeOffset) (infos : List (String × NodeInfo))
      → knows node (set_offset fm node k o infos) ≡ true
  knows-set_offset node k o infos =
      let i = info_or_new (lookup node infos) in
      ap is_some (lookup_here node (record i { offsets = insert k o i.offsets }) infos)

  -- The offsets that the loop leaves a node with that the store knows: with a report to clear, those
  -- of the last reports alone; else those of the last reports over the old ones.
  update_offsets-last_report :
      (node key : String) (all rs : List Report) (infos : List (String × NodeInfo))
      → knows node infos ≡ true
      → offset_at node key (update_offsets fm node all rs infos) ≡ (
          if has_clear rs
          then last_report key all none
          else last_report key rs (offset_at node key infos))
  unfolding update_offsets lookup
  update_offsets-last_report node key all [] infos h = refl
  update_offsets-last_report node key all (r ∷ rs) infos h = elim (Asks-cases (asks fm r)) [
    | inl e ↦ elim (Option-cases (lookup node infos)) [
      | inl n ↦ absurd (ground (arith, subst (λ (o : Option NodeInfo). is_some o ≡ true) n h))
      | inr (i, n) ↦
          rw (update_offsets, e, n)
            (update_cleared-last_report node key all (insert node (record i { offsets = [] }) infos)
              ∙ ap (last_report key all)
                  (offset_at-insert node key (record i { offsets = [] }) infos))
    ]
    | inr (inl (k, e)) ↦
        let infos' = drop_offset fm node k (lookup node infos) infos in
        rw (update_offsets, e)
          (update_offsets-last_report node key all rs infos' (knows-drop_offset node k infos h)
            ∙ ap
                (λ (o : Option NodeOffset).
                  if has_clear rs then last_report key all none else last_report key rs o)
                (offset_at-drop_offset node k key infos))
    | inr (inr (k, o, e)) ↦
        rw (update_offsets, e)
          (update_offsets-last_report node key all rs (set_offset fm node k o infos)
              (knows-set_offset node k o infos)
            ∙ ap
                (λ (o : Option NodeOffset).
                  if has_clear rs then last_report key all none else last_report key rs o)
                (offset_at-set_offset node k key o infos))
  ]

  offset_at-touched :
      (now : ℕ) (node key : String) (s : Store)
      → offset_at node key (touched fm now node (lookup node s.node_infos) s).node_infos
        ≡ offset_at node key s.node_infos
  offset_at-touched now node key s = elim (Option-cases (lookup node s.node_infos)) [
    | inl e ↦
        ap (λ (o : Option NodeInfo). offset_at node key (touched fm now node o s).node_infos) e
    | inr (i, e) ↦
        ap (λ (o : Option NodeInfo). offset_at node key (touched fm now node o s).node_infos) e
        ∙ (offset_at-insert node key (record i { last_alive_time = now }) s.node_infos
            ∙ ap (λ (o : Option NodeInfo). lookup key (info_or_new o).offsets) (sym e))
  ]

  -- A ping of a node that an initialed store knows. Whatever the order of its reports, if one of them
  -- asks to clear, then the node's offsets are those of the last report on each key and no others;
  -- else those of the reports replace the old ones, key by key. The status is OK just if the node is
  -- alive in the store.
  pub update_node_info-offsets :
      (now : ℕ) (n : Node) (reports : List Report) (s : Store)
      → initialed s ≡ true
      → knows (fm.ip_port n) s.node_infos ≡ true
      → ((key : String)
          → offset_at (fm.ip_port n) key (update_node_info fm now n reports s).1.node_infos ≡ (
              if has_clear reports
              then last_report key reports none
              else last_report key reports (offset_at (fm.ip_port n) key s.node_infos)))
        × ((update_node_info fm now n reports s).0
            ≡ (if alive (lookup (fm.ip_port n) s.node_infos) then ok else not_found))
  unfolding update_node_info
  update_node_info-offsets now n reports s up known =
      let node = fm.ip_port n in
      let s' : Store = record s {
        node_infos = update_offsets fm node reports reports s.node_infos;
      } in
      elim (Bool-cases (alive (lookup node s.node_infos))) [
        | inl a ↦ (
          λ key.
              rw (update_node_info, up, a)
                (offset_at-touched now node key s'
                  ∙ update_offsets-last_report node key reports reports s.node_infos known),
          rw (update_node_info, up, a),
        )
        | inr a ↦ (
          λ key.
              rw (update_node_info, up, a)
                (update_offsets-last_report node key reports reports s.node_infos known),
          rw (update_node_info, up, a),
        )
      ]
