-- ===== src/Node/Sender/Pool/Valid.antt =====
-- The pool of src/node/zp_binlog_sender.cc in use by several threads: every sequence of operations.
use Prim.Native.String.{String}
use text.Mathlib.Text.{◌==◌ as str_eq}
use text.Mathlib.TextEquality.{eq_iff}
use zeppelin.Base.{
  ℕ, ◌≡◌, refl, sym, ap, ◌∙◌, subst, inl, inr, Bool, true, false, ◌||◌, not, Option, none, some,
  List, [], ◌∷◌, ◌++◌, ◌==◌, if◌then◌else◌, arith, Option-cases, Bool-cases, of_some, ==_refl,
}
use zeppelin.Base.Assoc.{lookup, insert, lookup-insert, lookup-erase}
use zeppelin.Env.{Status, ok, not_found, SequentialFiles}
use zeppelin.Node.Sender.{Task}
use zeppelin.Node.Sender.Pool.{
  Handle, Pool, erase_task, new_pool, add_task, remove_task, fetch_out, put_back, erased,
  handle_or_new, same_task, is_end,
}

module _ (q : SequentialFiles) where
  -- The task of this name in a list
  unfoldable pub find : String → List (Task q) → Option (Task q)
  find name [] = none
  find name (t ∷ ts) = if str_eq t.name name then some t else find name ts

  abbrev pub Distinct : List (Task q) → Type 0
  Distinct [] = Unit
  Distinct (t ∷ ts) = (find t.name ts ≡ none) × Distinct ts

  abbrev pub Agrees : Option (Handle q) → Option (Task q) → Type 0
  Agrees none o = o ≡ none
  Agrees (some h) o = (h.iter ≡ o) × ((t : Task q) → o ≡ some t → t.sequence ≡ h.sequence)

  -- The list has one task for a name, and a name's handle points to it, if it is there, and has its
  -- sequence; a name without a handle has no task.
  pub record IsValid (p : Pool q) : Type 0 where
    pub distinct : Distinct p.tasks
    pub agrees : (name : String) → Agrees (lookup name p.task_ptrs) (find name p.tasks)

  -- What a thread does with the pool under the lock.
  pub data Call : Pool q → Pool q → Type 0 where
    counts : (p : Pool q) (n : ℕ) → Call p (record p { next_sequence = n })
    adds : (p : Pool q) (t : Task q) → Call p (add_task q p t).1
    removes : (p : Pool q) (name : String) → Call p (remove_task q p name).1
    fetches : (p : Pool q) → Call p (fetch_out q p).2
    puts : (p : Pool q) (t : Task q) → Call p (put_back q p t).1

  pub data Reach : Pool q → Type 0 where
    empty : Reach (new_pool q)
    next : {p p' : Pool q} → Reach p → Call p p' → Reach p'

  find-snoc :
      (name : String) (t : Task q) (ts : List (Task q))
      → find t.name ts ≡ none
      → find name (ts ++ t ∷ []) ≡ (if str_eq t.name name then some t else find name ts)
  unfolding find
  find-snoc name t [] e = refl
  find-snoc name t (u ∷ us) e =
      ground
        (arith, eq_iff u.name t.name, eq_iff u.name name, eq_iff t.name name, find-snoc name t us)

  Distinct-snoc :
      (t : Task q) (ts : List (Task q))
      → find t.name ts ≡ none
      → Distinct ts
      → Distinct (ts ++ t ∷ [])
  unfolding find
  Distinct-snoc t [] e d = (refl, tt)
  Distinct-snoc t (u ∷ us) e (a, d) = (
    ground (arith, eq_iff u.name t.name, eq_iff t.name u.name, find-snoc u.name t us),
    Distinct-snoc t us (ground arith) d,
  )

  find-name :
      (name : String) (ts : List (Task q)) (t : Task q) → find name ts ≡ some t → t.name ≡ name
  unfolding find
  find-name name [] t e = absurd (ground arith)
  find-name name (u ∷ us) t e = ground (arith, eq_iff u.name name, find-name name us t)

  same_task-true : (t u : Task q) → u ≡ t → same_task q t u ≡ true
  same_task-true t u e =
      subst (λ (v : Task q). same_task q t v ≡ true) (sym e) (ground (arith, eq_iff t.name t.name))

  same_task-false : (t u : Task q) → str_eq u.name t.name ≡ false → same_task q t u ≡ false
  same_task-false t u h = ground (arith, eq_iff t.name u.name, eq_iff u.name t.name)

  head-same :
      (t u : Task q) (us : List (Task q))
      → find t.name (u ∷ us) ≡ some t
      → str_eq u.name t.name ≡ true
      → u ≡ t
  unfolding find
  head-same t u us e h =
      of_some (ap (λ (b : Bool). if b then some u else find t.name us) (sym h) ∙ e)

  other-find :
      (t u : Task q) (us : List (Task q))
      → find t.name (u ∷ us) ≡ some t
      → str_eq u.name t.name ≡ false
      → find t.name us ≡ some t
  unfolding find
  other-find t u us e h = ap (λ (b : Bool). if b then some u else find t.name us) (sym h) ∙ e

  find-erase_task :
      (name : String) (t : Task q) (ts : List (Task q))
      → find t.name ts ≡ some t
      → Distinct ts
      → find name (erase_task q t ts) ≡ (if str_eq t.name name then none else find name ts)
  unfolding find erase_task
  find-erase_task name t [] e d = absurd (ground arith)
  find-erase_task name t (u ∷ us) e (a, d) = elim (Bool-cases (str_eq u.name t.name)) [
    | inl h ↦
        let same = head-same t u us e h in
        ground (
          arith,
          ap (λ (x : Task q). x.sequence) same,
          eq_iff t.name u.name,
          eq_iff u.name t.name,
          eq_iff u.name name,
          eq_iff t.name name,
        )
    | inr h ↦ ground (
      arith,
      h,
      eq_iff t.name u.name,
      eq_iff u.name t.name,
      eq_iff u.name name,
      eq_iff t.name name,
      find-erase_task name t us (other-find t u us e h) d,
    )
  ]

  Distinct-erase_task :
      (t : Task q) (ts : List (Task q))
      → find t.name ts ≡ some t
      → Distinct ts
      → Distinct (erase_task q t ts)
  unfolding find erase_task
  Distinct-erase_task t [] e d = absurd (ground arith)
  Distinct-erase_task t (u ∷ us) e (a, d) = elim (Bool-cases (str_eq u.name t.name)) [
    | inl h ↦
        subst (λ (b : Bool). Distinct (if b then us else u ∷ erase_task q t us))
          (sym (same_task-true t u (head-same t u us e h))) d
    | inr h ↦
        subst (λ (b : Bool). Distinct (if b then us else u ∷ erase_task q t us))
          (sym (same_task-false t u h))
          (
            ground (arith, a, find-erase_task u.name t us (other-find t u us e h) d),
            Distinct-erase_task t us (other-find t u us e h) d,
          )
  ]

  Agrees-if :
      (b : Bool) (h l : Option (Handle q)) (t f : Option (Task q))
      → Agrees h t
      → Agrees l f
      → Agrees (if b then h else l) (if b then t else f)
  Agrees-if true h l t f a c = a
  Agrees-if false h l t f a c = c

  -- A name without a free handle has no task in the list.
  Agrees-find :
      (l : Option (Handle q)) (f : Option (Task q)) → Agrees l f → (handle_or_new q l).iter ≡ f
  Agrees-find none f a = sym a
  Agrees-find (some h) f a = a.0

  IsValid-inserted :
      (p : Pool q) (h : Handle q) (t : Task q) (n : ℕ)
      → IsValid p
      → find t.name p.tasks ≡ none
      → h.iter ≡ some t
      → t.sequence ≡ h.sequence
      → IsValid (record {
        next_sequence = n;
        tasks = p.tasks ++ t ∷ [];
        task_ptrs = insert t.name h p.task_ptrs;
      })
  IsValid-inserted p h t n v e i s = record {
    distinct = Distinct-snoc t p.tasks e v.distinct;
    agrees = λ name.
        rw (lookup-insert t.name name h p.task_ptrs, find-snoc name t p.tasks e)
          (Agrees-if (str_eq t.name name) (some h) (lookup name p.task_ptrs) (some t)
            (find name p.tasks)
            (i, λ u same. ap (λ (w : Task q). w.sequence) (sym (of_some same)) ∙ s)
            (v.agrees name));
  }

  IsValid-add_task : (p : Pool q) (t : Task q) → IsValid p → IsValid (add_task q p t).1
  unfolding add_task
  IsValid-add_task p t v = elim (Option-cases (lookup t.name p.task_ptrs)) [
    | inl e ↦
        let missing =
          subst (λ (l : Option (Handle q)). Agrees l (find t.name p.tasks)) e (v.agrees t.name) in
        rw (e, add_task)
          (IsValid-inserted p
            (record { iter = some t; sequence = t.sequence; filenum_snap = t.filenum }) t
            p.next_sequence v missing refl refl)
    | inr (h, e) ↦ rw (e, add_task) v
  ]

  find-erased :
      (name other : String) (o : Option (Task q)) (ts : List (Task q))
      → o ≡ find name ts
      → Distinct ts
      → find other (erased q o ts) ≡ (if str_eq name other then none else find other ts)
  find-erased name other none ts e d = ground (arith, eq_iff name other)
  find-erased name other (some t) ts e d =
      let named = find-name name ts t (sym e) in
      subst
        (λ (n : String).
          find other (erase_task q t ts) ≡ (if str_eq n other then none else find other ts))
        named
        (find-erase_task other t ts (subst (λ (n : String). find n ts ≡ some t) (sym named) (sym e))
          d)

  Distinct-erased :
      (name : String) (o : Option (Task q)) (ts : List (Task q))
      → o ≡ find name ts
      → Distinct ts
      → Distinct (erased q o ts)
  Distinct-erased name none ts e d = d
  Distinct-erased name (some t) ts e d =
      Distinct-erase_task t ts
        (subst (λ (n : String). find n ts ≡ some t) (sym (find-name name ts t (sym e))) (sym e)) d

  handle_points :
      (p : Pool q) (name : String) (h : Handle q)
      → IsValid p
      → lookup name p.task_ptrs ≡ some h
      → h.iter ≡ find name p.tasks
  handle_points p name h v e =
      (subst (λ (l : Option (Handle q)). Agrees l (find name p.tasks)) e (v.agrees name)).0

  IsValid-remove_task : (p : Pool q) (name : String) → IsValid p → IsValid (remove_task q p name).1
  unfolding remove_task
  IsValid-remove_task p name v = elim (Option-cases (lookup name p.task_ptrs)) [
    | inl e ↦ rw (e, remove_task) v
    | inr (h, e) ↦
        let points = handle_points p name h v e in
        rw (e, remove_task)
          (record {
            distinct = Distinct-erased name h.iter p.tasks points v.distinct;
            agrees = λ other.
                rw
                  (
                    lookup-erase name other p.task_ptrs,
                    find-erased name other h.iter p.tasks points v.distinct,
                  )
                  (Agrees-if (str_eq name other) none (lookup other p.task_ptrs) none
                    (find other p.tasks) refl (v.agrees other));
          })
  ]

  pub put_back-accepts :
      (p : Pool q) (t : Task q) (h : Handle q)
      → lookup t.name p.task_ptrs ≡ some h
      → h.iter ≡ none
      → h.sequence ≡ t.sequence
      → put_back q p t ≡ (
        ok,
        record p {
          tasks = p.tasks ++ t ∷ [];
          task_ptrs =
              insert t.name (record h { iter = some t; filenum_snap = t.filenum }) p.task_ptrs;
        },
      )
  unfolding put_back
  put_back-accepts p t h e out same =
      simp (e, put_back, out, subst (λ (n : ℕ). (h.sequence == n) ≡ true) same (==_refl h.sequence))

  pub put_back-refuses :
      (p : Pool q) (t : Task q) (h : Handle q)
      → lookup t.name p.task_ptrs ≡ some h
      → (not (is_end q h.iter) || not (h.sequence == t.sequence)) ≡ true
      → put_back q p t ≡ (not_found, p)
  unfolding put_back
  put_back-refuses p t h e c = rw (e, put_back, c)

  IsValid-put_back : (p : Pool q) (t : Task q) → IsValid p → IsValid (put_back q p t).1
  unfolding put_back
  IsValid-put_back p t v = elim (Option-cases (lookup t.name p.task_ptrs)) [
    | inl e ↦ rw (e, put_back) v
    | inr (h, e) ↦ elim (Bool-cases (not (is_end q h.iter) || not (h.sequence == t.sequence))) [
      | inl c ↦ rw (e, put_back, c) v
      | inr c ↦
          rw (e, put_back, c)
            (IsValid-inserted p (record h { iter = some t; filenum_snap = t.filenum }) t
              p.next_sequence v (sym (handle_points p t.name h v e) ∙ (ground (arith, c))) refl
              (ground (arith, c)))
    ]
  ]

  IsValid-fetched :
      (p : Pool q) (t : Task q) (ts : List (Task q)) (h : Handle q)
      → p.tasks ≡ t ∷ ts
      → h.iter ≡ none
      → IsValid p
      → IsValid (record p { tasks = ts; task_ptrs = insert t.name h p.task_ptrs })
  unfolding find
  IsValid-fetched p t ts h e out v =
      let (apart, d) = subst Distinct e v.distinct in
      record {
        distinct = d;
        agrees = λ name.
            let before =
              subst (λ (us : List (Task q)). Agrees (lookup name p.task_ptrs) (find name us)) e
                (v.agrees name) in
            rw (lookup-insert t.name name h p.task_ptrs) (elim (Bool-cases (str_eq t.name name)) [
              | inl same ↦ rw same (
                out
                    ∙ sym (
                        subst (λ (n : String). find n ts ≡ none) ((eq_iff t.name name).0 same)
                          apart),
                λ u f. absurd (
                    ground (
                      arith,
                      f,
                      subst (λ (n : String). find n ts ≡ none) ((eq_iff t.name name).0 same) apart,
                    )),
              )
              | inr other ↦ rw other (
                  subst
                    (λ (b : Bool).
                      Agrees (lookup name p.task_ptrs) (if b then some t else find name ts))
                    other before)
            ]);
      }

  pub fetch_out-cons :
      (p : Pool q) (t : Task q) (ts : List (Task q))
      → p.tasks ≡ t ∷ ts
      → fetch_out q p ≡ (
        ok,
        some t,
        record p {
          tasks = ts;
          task_ptrs =
              insert t.name
                (record (handle_or_new q (lookup t.name p.task_ptrs)) { iter = none })
                p.task_ptrs;
        },
      )
  unfolding fetch_out
  fetch_out-cons p t ts e = simp (e, fetch_out)

  pub fetch_out-nil : (p : Pool q) → p.tasks ≡ [] → fetch_out q p ≡ (not_found, none, p)
  unfolding fetch_out
  fetch_out-nil p e = simp (e, fetch_out)

  IsValid-fetch_out : (p : Pool q) → IsValid p → IsValid (fetch_out q p).2
  unfolding fetch_out
  IsValid-fetch_out p v = IsValid-after p.tasks refl
    where
      IsValid-after : (ts : List (Task q)) → p.tasks ≡ ts → IsValid (fetch_out q p).2
      IsValid-after [] e =
          subst (λ (x : Status × Option (Task q) × Pool q). IsValid x.2) (sym (fetch_out-nil p e)) v
      IsValid-after (t ∷ ts) e =
          subst (λ (x : Status × Option (Task q) × Pool q). IsValid x.2)
            (sym (fetch_out-cons p t ts e))
            (IsValid-fetched p t ts
              (record (handle_or_new q (lookup t.name p.task_ptrs)) { iter = none }) e refl v)

  Call-IsValid : {p p' : Pool q} → Call p p' → IsValid p → IsValid p'
  Call-IsValid (counts p n) v = record { distinct = v.distinct; agrees = v.agrees }
  Call-IsValid (adds p t) v = IsValid-add_task p t v
  Call-IsValid (removes p name) v = IsValid-remove_task p name v
  Call-IsValid (fetches p) v = IsValid-fetch_out p v
  Call-IsValid (puts p t) v = IsValid-put_back p t v

  -- Whatever the threads call, in whatever order: the list has at most one task for a name; a name's
  -- handle points to the task of that name in the list if it is there, to the end if it is not, and
  -- has its sequence; and a name without a handle has no task in the list.
  pub Reach-IsValid : {p : Pool q} → Reach p → IsValid p
  unfolding lookup find
  Reach-IsValid empty = record { distinct = tt; agrees = λ name. refl }
  Reach-IsValid (next r c) = Call-IsValid c (Reach-IsValid r)
