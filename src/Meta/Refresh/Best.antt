-- ===== src/Meta/Refresh/Best.antt =====
-- The slave that RefreshTableWithNodeAlive of src/meta/zp_meta_info_store.cc chooses.
use Prim.Native.String.{String}
use zeppelin.Base.{
  ℕ, suc, ◌+◌, ◌≡◌, refl, sym, ◌∙◌, subst, ◌⊎◌, inl, inr, true, false, ◌&&◌, Option, none, some,
  List, [], ◌∷◌, get_elem?, arith, Bool-cases,
}
use zeppelin.Base.Int.{ℤ, int_eq, int_lt, int_ge}
use zeppelin.Base.Int.Order.{
  int_eq_refl, int_eq→≡, int_ge_refl, int_ge_trans, int_ge_total, int_lt_trans, int_lt_total,
}
use zeppelin.Meta.Data.{Node, NodeOffset, no_offset, offset_ge, Formats}
use zeppelin.Meta.Snapshot.{Snapshot, is_node_up}
use zeppelin.Meta.Refresh.{slave_offset, max_slave}

offset_ge-lt : (a b : NodeOffset) → int_lt b.filenum a.filenum ≡ true → offset_ge a b ≡ true
unfolding offset_ge
offset_ge-lt a b h = rw h

offset_ge-eq :
    (a b : NodeOffset)
    → a.filenum ≡ b.filenum
    → int_ge a.offset b.offset ≡ true
    → offset_ge a b ≡ true
unfolding offset_ge
offset_ge-eq a b e h = ground (
  arith,
  h,
  int_eq_refl b.filenum,
  subst (λ x. int_eq x b.filenum ≡ true) (sym e) (int_eq_refl b.filenum),
)

offset_ge-cases :
    (a b : NodeOffset)
    → offset_ge a b ≡ true
    → (int_lt b.filenum a.filenum ≡ true)
      ⊎ ((a.filenum ≡ b.filenum) × (int_ge a.offset b.offset ≡ true))
unfolding offset_ge
offset_ge-cases a b h = elim (Bool-cases (int_lt b.filenum a.filenum)) [
  | inl lt ↦ inl lt
  | inr ge ↦
      let same : int_eq a.filenum b.filenum ≡ true = ground arith in
      inr (int_eq→≡ a.filenum b.filenum same, ground arith)
]

offset_ge_refl : (a : NodeOffset) → offset_ge a a ≡ true
offset_ge_refl a = offset_ge-eq a a refl (int_ge_refl a.offset)

offset_ge_trans :
    (a b c : NodeOffset) → offset_ge a b ≡ true → offset_ge b c ≡ true → offset_ge a c ≡ true
offset_ge_trans a b c h k = elim (offset_ge-cases a b h) [
  | inl lt ↦ elim (offset_ge-cases b c k) [
    | inl lt' ↦ offset_ge-lt a c (int_lt_trans c.filenum b.filenum a.filenum lt' lt)
    | inr (same, ge) ↦ offset_ge-lt a c (subst (λ (n : ℤ). int_lt n a.filenum ≡ true) same lt)
  ]
  | inr (same, ge) ↦ elim (offset_ge-cases b c k) [
    | inl lt' ↦ offset_ge-lt a c (subst (λ (n : ℤ). int_lt c.filenum n ≡ true) (sym same) lt')
    | inr (same', ge') ↦
        offset_ge-eq a c (same ∙ same') (int_ge_trans a.offset b.offset c.offset ge ge')
  ]
]

offset_ge_total : (a b : NodeOffset) → offset_ge a b ≡ false → offset_ge b a ≡ true
unfolding offset_ge
offset_ge_total a b h = elim (Bool-cases (int_eq a.filenum b.filenum)) [
  | inl same ↦
      offset_ge-eq b a (sym (int_eq→≡ a.filenum b.filenum same))
        (int_ge_total a.offset b.offset (ground arith))
  | inr other ↦ offset_ge-lt b a (int_lt_total a.filenum b.filenum other (ground arith))
]

module _ (fm : Formats) (s : Snapshot) (table : String) where
  -- No slave of the list, which starts at place j, is up with an offset above `bound`.
  abbrev pub NoneAbove : List Node → ℕ → NodeOffset → Type 0
  NoneAbove [] j bound = Unit
  NoneAbove (n ∷ ns) j bound =
      (is_node_up fm s n ≡ true → offset_ge bound (slave_offset fm s table n j) ≡ true)
      × NoneAbove ns (suc j) bound

  -- No slave of the list is up with an offset that reaches `bound`.
  abbrev pub NoneReaches : List Node → ℕ → NodeOffset → Type 0
  NoneReaches [] j bound = Unit
  NoneReaches (n ∷ ns) j bound =
      (is_node_up fm s n ≡ true → offset_ge (slave_offset fm s table n j) bound ≡ false)
      × NoneReaches ns (suc j) bound

  NoneReaches-NoneAbove :
      (ns : List Node) (j : ℕ) (bound : NodeOffset) → NoneReaches ns j bound → NoneAbove ns j bound
  NoneReaches-NoneAbove [] j bound h = tt
  NoneReaches-NoneAbove (n ∷ ns) j bound h = (
    λ up. offset_ge_total (slave_offset fm s table n j) bound (h.0 up),
    NoneReaches-NoneAbove ns (suc j) bound h.1,
  )

  -- The slave n at place i of the whole list, the k-th from j on: up, at least as far as `bound`
  -- and as every other slave of the list that is up.
  pub record IsBest (ns : List Node) (j : ℕ) (bound : NodeOffset) (r : Option ℕ) : Type 0 where
    pub k : ℕ
    pub i : ℕ
    pub node : Node
    pub place : i ≡ j + k
    pub chosen : r ≡ some i
    pub there : get_elem? ns k ≡ some node
    pub up : is_node_up fm s node ≡ true
    pub reaches : offset_ge (slave_offset fm s table node i) bound ≡ true
    pub most : NoneAbove ns j (slave_offset fm s table node i)

  max_slave-cases :
      (ns : List Node) (j : ℕ) (best : Option ℕ) (bound : NodeOffset)
      → ((max_slave fm s table ns j best bound ≡ best) × NoneReaches ns j bound)
        ⊎ IsBest ns j bound (max_slave fm s table ns j best bound)
  unfolding max_slave
  max_slave-cases [] j best bound = inl (refl, tt)
  max_slave-cases (n ∷ ns) j best bound =
      let o = slave_offset fm s table n j in
      elim (Bool-cases (is_node_up fm s n && offset_ge o bound)) [
        | inl better ↦
            let up : is_node_up fm s n ≡ true = ground arith in
            let ge : offset_ge o bound ≡ true = ground arith in
            rw better (
              inr (elim (max_slave-cases ns (suc j) (some j) o) [
                | inl (kept, fewer) ↦ record {
                  k = 0;
                  i = j;
                  node = n;
                  place = omega arith;
                  chosen = kept;
                  there = refl;
                  up = up;
                  reaches = ge;
                  most = (λ _. offset_ge_refl o, NoneReaches-NoneAbove ns (suc j) o fewer);
                }
                | inr b ↦ record {
                  k = suc b.k;
                  i = b.i;
                  node = b.node;
                  place = omega (arith, b.place);
                  chosen = b.chosen;
                  there = b.there;
                  up = b.up;
                  reaches =
                      offset_ge_trans (slave_offset fm s table b.node b.i) o bound b.reaches ge;
                  most = (λ _. b.reaches, b.most);
                }
              ]))
        | inr worse ↦
            let less : (is_node_up fm s n ≡ true → offset_ge o bound ≡ false) =
              λ up. ground (arith, up) in
            rw worse (elim (max_slave-cases ns (suc j) best bound) [
              | inl (kept, fewer) ↦ inl (kept, (less, fewer))
              | inr b ↦ inr (record {
                k = suc b.k;
                i = b.i;
                node = b.node;
                place = omega (arith, b.place);
                chosen = b.chosen;
                there = b.there;
                up = b.up;
                reaches = b.reaches;
                most = (
                  λ up.
                      offset_ge_trans (slave_offset fm s table b.node b.i) bound o b.reaches
                        (offset_ge_total o bound (less up)),
                  b.most,
                );
              })
            ])
      ]

  -- Over all the slaves: none is chosen, and no slave that is up has an offset that reaches (0, 0);
  -- or the choice is up, and its offset, as the code looks it up, reaches that of every slave that is
  -- up.
  pub max_slave-IsBest :
      (ns : List Node)
      → ((max_slave fm s table ns 0 none no_offset ≡ none) × NoneReaches ns 0 no_offset)
        ⊎ IsBest ns 0 no_offset (max_slave fm s table ns 0 none no_offset)
  max_slave-IsBest ns = max_slave-cases ns 0 none no_offset
