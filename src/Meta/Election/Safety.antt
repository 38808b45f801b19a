-- ===== src/Meta/Election/Safety.antt =====
-- The meta servers that elect a leader, src/meta/zp_meta_election.cc, as steps on the record in floyd
-- and on what each of them has cached. They share one clock.
use text.Mathlib.TextEquality.{eq_iff}
use zeppelin.Base.{
  ℕ, ◌+◌, ◌*◌, ◌≤◌, ◌<◌, ◌≡◌, refl, sym, ap, ◌∙◌, subst, ◌⊎◌, inl, inr, Bool, true, false, ◌||◌,
  not, Option, none, some, if◌then◌else◌, arith, Bool-cases, of_some,
}
use zeppelin.Meta.Data.{Node}
use zeppelin.Meta.Election.{
  Leader, Looked, answers, goes_on, Elected, same_address, is_leader_timeout, jeopardy, cached,
  look_at, look, may_lead, leader_of, elect, leader_timeout,
}

pub record Cluster : Type 0 where
  pub clock : ℕ
  pub stored : Option Leader
  pub last : Node → Option Leader

abbrev pub cache : Cluster → Node → Option Leader → Node → Option Leader
cache c mine l n = if same_address n mine then l else c.last n

-- One of the servers takes a part of GetLeader, and gives the answer that the part ends with, if any.
-- Its write succeeds, if it makes one.
pub data Step (c : Cluster) : Cluster → Node → Option Node → Type 0 where
  looks :
      (now : ℕ) (mine : Node) (read_ok : Bool) (x : Looked × Option Leader) (answer : Option Node)
      → c.clock ≤ now
      → look now mine read_ok c.stored (c.last mine) ≡ x
      → (x.0 ≡ answers answer) ⊎ ((x.0 ≡ goes_on) × (answer ≡ none))
      → Step c (record { clock = now; stored = c.stored; last = cache c mine x.1 }) mine answer
  elects :
      (now : ℕ) (mine : Node) (lock_ok read_ok : Bool) (x : Elected)
      → c.clock ≤ now
      → elect now mine lock_ok read_ok true c.stored (c.last mine) ≡ x
      → Step c (record { clock = now; stored = x.stored; last = cache c mine x.last }) mine x.answer

-- From no record in floyd and nothing cached.
pub data Reach : Cluster → Type 0 where
  starts : Reach (record { clock = 0; stored = none; last = λ n. none })
  next :
      {c d : Cluster} {mine : Node} {answer : Option Node}
      → Reach c
      → Step c d mine answer
      → Reach d

-- The record names n.
abbrev pub Names : Node → Option Leader → Type 0
Names n none = ⊥
Names n (some r) = same_address r.leader n ≡ true

-- What stands behind a server's own leadership in its cache: the record in floyd names it, or was
-- written by another one after the timeout.
abbrev Backed : Node → Option Leader → Option Leader → Type 0
Backed n none stored = Unit
Backed n (some l) none = same_address l.leader n ≡ false
Backed n (some l) (some r) =
    (same_address l.leader n ≡ false)
    ⊎ ((same_address r.leader n ≡ true) × (l.last_active ≤ r.last_active))
    ⊎ (l.last_active + leader_timeout * 1000 * 1000 ≤ r.last_active)

abbrev Past : ℕ → Option Leader → Type 0
Past now none = Unit
Past now (some r) = r.last_active ≤ now

record IsSafe (c : Cluster) : Type 0 where
  backed : (n : Node) → Backed n (c.last n) c.stored
  past : Past c.clock c.stored

same_address_sym : (a b : Node) → same_address a b ≡ same_address b a
unfolding same_address
same_address_sym a b = ground (arith, eq_iff a.ip b.ip, eq_iff b.ip a.ip)

same_address_trans : (a b c : Node) → same_address a b ≡ true → same_address b c ≡ same_address a c
unfolding same_address
same_address_trans a b c h = ground (arith, eq_iff a.ip b.ip, eq_iff b.ip c.ip, eq_iff a.ip c.ip)

-- A record that was just read stands behind itself.
Backed-self : (n : Node) (l : Leader) → Backed n (some l) (some l)
Backed-self n l = elim (Bool-cases (same_address l.leader n)) [
  | inl mine ↦ inr (inl (mine, omega arith))
  | inr other ↦ inl other
]

Backed-cached :
    (n : Node) (stored last : Option Leader)
    → Backed n last stored
    → Backed n (cached stored last) stored
Backed-cached n none last h = h
Backed-cached n (some l) last h = Backed-self n l

-- A server's new record stands behind every server's cache.
Backed-written :
    (now : ℕ) (mine n : Node) (stored last : Option Leader)
    → Past now stored
    → may_lead now mine stored ≡ true
    → Backed n last stored
    → Backed n last (some (record { leader = mine; last_active = now }))
unfolding may_lead is_leader_timeout
Backed-written now mine n stored none p m h = tt
Backed-written now mine n none (some l) p m h = inl h
Backed-written now mine n (some r) (some l) p m h =
    ground (arith, same_address_trans r.leader mine n)

Backed-look :
    (now : ℕ) (mine n : Node) (read_ok : Bool) (stored last : Option Leader)
    → Backed n last stored
    → Backed n (look now mine read_ok stored last).1 stored
unfolding look
Backed-look now mine n true stored last h = Backed-cached n stored last h
Backed-look now mine n false stored last h = h

-- What elect leaves, for each of the servers.
record Kept (now : ℕ) (mine : Node) (stored last : Option Leader) (x : Elected) : Type 0 where
  own : (n : Node) → Backed n last stored → Backed n x.last x.stored
  others : (n : Node) (l : Option Leader) → Backed n l stored → Backed n l x.stored
  past : Past now x.stored

Past-le : (a b : ℕ) (stored : Option Leader) → a ≤ b → Past a stored → Past b stored
Past-le a b none h p = tt
Past-le a b (some r) h p = omega arith

elect-Kept :
    (now : ℕ) (mine : Node) (lock_ok read_ok : Bool) (stored last : Option Leader)
    → Past now stored
    → Kept now mine stored last (elect now mine lock_ok read_ok true stored last)
unfolding elect
elect-Kept now mine lock_ok read_ok stored last p = elim (Bool-cases (not lock_ok || not read_ok)) [
  | inl failed ↦ rw failed (record { own = λ n h. h; others = λ n l h. h; past = p })
  | inr locked ↦ elim (Bool-cases (may_lead now mine stored)) [
    | inl leads ↦
        rw (locked, leads)
          (record {
            own = λ n h. Backed-self n (record { leader = mine; last_active = now });
            others = λ n l h. Backed-written now mine n stored l p leads h;
            past = omega arith;
          })
    | inr follows ↦
        rw (locked, follows)
          (record { own = λ n h. Backed-cached n stored last h; others = λ n l h. h; past = p })
  ]
]

Backed-cache :
    (c : Cluster) (mine n : Node) (l stored : Option Leader)
    → Backed n l stored
    → Backed n (c.last n) stored
    → Backed n (cache c mine l n) stored
Backed-cache c mine n l stored h k = elim (Bool-cases (same_address n mine)) [
  | inl own ↦ rw own h
  | inr other ↦ rw other k
]

-- What is cached for one address is cached for it under every name of that address.
same_last : (c : Cluster) (mine n : Node) → same_address n mine ≡ true → n ≡ mine
unfolding same_address
same_last c mine n h = ground (arith, eq_iff n.ip mine.ip)

own_cache :
    (c : Cluster) (mine n : Node) (l stored : Option Leader)
    → (Backed n (c.last mine) stored → Backed n l stored)
    → Backed n (c.last n) stored
    → Backed n (cache c mine l n) stored
own_cache c mine n l stored h k = elim (Bool-cases (same_address n mine)) [
  | inl own ↦
      rw own (h (subst (λ (x : Node). Backed n (c.last x) stored) (same_last c mine n own) k))
  | inr other ↦ rw other k
]

Step-IsSafe :
    {c d : Cluster} {mine : Node} {answer : Option Node}
    → Step c d mine answer
    → IsSafe c
    → IsSafe d
Step-IsSafe {c} (looks now mine read_ok x answer le made which) s = record {
  backed = λ n.
      own_cache c mine n x.1 c.stored
        (λ h.
          subst (λ (y : Looked × Option Leader). Backed n y.1 c.stored) made
            (Backed-look now mine n read_ok c.stored (c.last mine) h))
        (s.backed n);
  past = Past-le c.clock now c.stored le s.past;
}
Step-IsSafe {c} (elects now mine lock_ok read_ok x le made) s =
    let kept = subst (Kept now mine c.stored (c.last mine)) made (
      elect-Kept now mine lock_ok read_ok c.stored (c.last mine)
        (Past-le c.clock now c.stored le s.past)) in
    record {
      backed = λ n. elim (Bool-cases (same_address n mine)) [
        | inl own ↦ rw own (
            kept.own n (
              subst (λ (y : Node). Backed n (c.last y) c.stored) (same_last c mine n own)
                (s.backed n)))
        | inr other ↦ rw other (kept.others n (c.last n) (s.backed n))
      ];
      past = kept.past;
    }

Reach-IsSafe : {c : Cluster} → Reach c → IsSafe c
Reach-IsSafe starts = record { backed = λ n. tt; past = tt }
Reach-IsSafe (next r s) = Step-IsSafe s (Reach-IsSafe r)

same_address_refl : (a : Node) → same_address a a ≡ true
unfolding same_address
same_address_refl a = ground (arith, eq_iff a.ip a.ip)

of_answers : {a b : Option Node} → answers a ≡ answers b → a ≡ b
of_answers {a} {b} e = cc

jeopardy-own :
    (now : ℕ) (mine : Node) (l : Leader)
    → jeopardy now mine (some l) ≡ some mine
    → (same_address l.leader mine ≡ true) × (now < l.last_active + 50 * 1000 * 1000)
unfolding jeopardy is_leader_timeout
jeopardy-own now mine l e =
    let same : l.leader ≡ mine = ground arith in
    let own : same_address l.leader mine ≡ true =
      subst (λ (n : Node). same_address n mine ≡ true) (sym same) (same_address_refl mine) in
    (own, ground arith)

jeopardy-none : (now : ℕ) (mine : Node) → jeopardy now mine none ≡ some mine → ⊥
unfolding jeopardy
jeopardy-none now mine e = ground arith

-- A server that takes itself for the leader while it cannot reach floyd is named by the record.
jeopardy-Names :
    (now : ℕ) (mine : Node) (stored last : Option Leader)
    → Past now stored
    → Backed mine last stored
    → jeopardy now mine last ≡ some mine
    → Names mine stored
jeopardy-Names now mine stored none p b e = absurd (jeopardy-none now mine e)
jeopardy-Names now mine none (some l) p b e =
    let (own, soon) = jeopardy-own now mine l e in ground arith
jeopardy-Names now mine (some r) (some l) p b e =
    let (own, soon) = jeopardy-own now mine l e in ground arith

Names-own : (mine : Node) (l : Leader) → l.leader ≡ mine → Names mine (some l)
Names-own mine l e =
    subst (λ (n : Node). same_address n mine ≡ true) (sym e) (same_address_refl mine)

look_at-none : (now : ℕ) (mine : Node) → look_at now mine none ≡ answers (some mine) → ⊥
unfolding look_at
look_at-none now mine e = ground arith

look_at-own :
    (now : ℕ) (mine : Node) (l : Leader)
    → look_at now mine (some l) ≡ answers (some mine)
    → l.leader ≡ mine
unfolding look_at
look_at-own now mine l e = ground arith

follows-Names :
    (now : ℕ) (mine : Node) (stored : Option Leader)
    → may_lead now mine stored ≡ false
    → leader_of mine stored ≡ mine
    → Names mine stored
unfolding may_lead
follows-Names now mine none f e = absurd (ground arith)
follows-Names now mine (some l) f e = Names-own mine l e

look-Names :
    (now : ℕ) (mine : Node) (read_ok : Bool) (stored last : Option Leader)
    → Past now stored
    → Backed mine last stored
    → (look now mine read_ok stored last).0 ≡ answers (some mine)
    → Names mine stored
unfolding look
look-Names now mine false stored last p b e = jeopardy-Names now mine stored last p b (of_answers e)
look-Names now mine true none last p b e = absurd (look_at-none now mine e)
look-Names now mine true (some l) last p b e = Names-own mine l (look_at-own now mine l e)

elect-Names :
    (now : ℕ) (mine : Node) (lock_ok read_ok : Bool) (stored last : Option Leader)
    → Past now stored
    → Backed mine last stored
    → (elect now mine lock_ok read_ok true stored last).answer ≡ some mine
    → Names mine (elect now mine lock_ok read_ok true stored last).stored
unfolding elect
elect-Names now mine lock_ok read_ok stored last p b e =
    elim (Bool-cases (not lock_ok || not read_ok)) [
      | inl failed ↦ rw failed (jeopardy-Names now mine stored last p b (rw failed at e))
      | inr locked ↦ elim (Bool-cases (may_lead now mine stored)) [
        | inl leads ↦ rw (locked, leads) (same_address_refl mine)
        | inr follows ↦
            rw (locked, follows)
              (follows-Names now mine stored follows (of_some (rw (locked, follows) at e)))
      ]
    ]

Step-Names :
    {c d : Cluster} {mine : Node} {answer : Option Node}
    → Step c d mine answer
    → IsSafe c
    → answer ≡ some mine
    → Names mine d.stored
Step-Names {c} (looks now mine read_ok x answer le made (inl ended)) s e =
    look-Names now mine read_ok c.stored (c.last mine) (Past-le c.clock now c.stored le s.past)
      (s.backed mine) (ap (λ (y : Looked × Option Leader). y.0) made ∙ ended ∙ ap answers e)
Step-Names (looks now mine read_ok x answer le made (inr (_, silent))) s e =
    absurd (ground (arith, silent, e))
Step-Names {c} (elects now mine lock_ok read_ok x le made) s e =
    subst (λ (y : Elected). Names mine y.stored) made
      (elect-Names now mine lock_ok read_ok c.stored (c.last mine)
        (Past-le c.clock now c.stored le s.past) (s.backed mine)
        (ap (λ (y : Elected). y.answer) made ∙ e))

-- However the meta servers take their steps, and whichever reads and locks fail: where GetLeader
-- answers a server with its own address, the record in floyd names it at that moment. This is for
-- one clock, for writes that succeed, and for a lock that is held while the step under it lasts.
pub Step-leader :
    {c d : Cluster} {mine : Node} → Reach c → Step c d mine (some mine) → Names mine d.stored
Step-leader r s = Step-Names s (Reach-IsSafe r) refl
