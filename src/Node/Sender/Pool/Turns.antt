-- ===== src/Node/Sender/Pool/Turns.antt =====
-- Tasks that leave the pool of src/node/zp_binlog_sender.cc and come back.
use Prim.Native.String.{String}
use text.Mathlib.Text.{◌==◌ as str_eq}
use text.Mathlib.TextEquality.{eq_iff}
use zeppelin.Base.{
  ℕ, ◌+◌, ◌%◌, ◌^◌, ◌≡◌, ◌≢◌, refl, sym, ap, ◌∙◌, subst, ◌⊎◌, inl, inr, true, false, ◌||◌, not,
  Option, none, some, List, [], ◌∷◌, ◌++◌, ◌==◌, if◌then◌else◌, arith, Option-cases, Bool-cases,
  of_some,
}
use zeppelin.Base.Int.{to_int32}
use zeppelin.Base.Assoc.{lookup, insert, erase, lookup-insert, lookup-erase}
use zeppelin.Env.{Status, ok, not_found, complete, is_ok, SequentialFiles}
use zeppelin.Binlog.Reader.{Reader, seek}
use zeppelin.Node.Sender.{Task, BinlogFiles, Fuel, create, sought, new_task, reader_on}
use zeppelin.Node.Sender.Pool.{
  Handle, Pool, add_task, remove_task, task_filenum, fetch_out, put_back, handle_or_new, task_exist,
  add_created, add_new_task, is_end, Meanwhile, make_room,
}
use zeppelin.Node.Sender.Pool.Valid.{
  IsValid, Agrees, find, put_back-accepts, put_back-refuses, fetch_out-cons, fetch_out-nil,
}

module _ (q : SequentialFiles) where
  lookup_here :
      (name : String) (h : Handle q) (m : List (String × Handle q))
      → lookup name (insert name h m) ≡ some h
  lookup_here name h m = ground (arith, lookup-insert name name h m, eq_iff name name)

  -- In a valid pool, the name of a task in the list has a handle with its sequence.
  handle_of :
      (p : Pool q) (t : Task q) (ts : List (Task q))
      → IsValid q p
      → p.tasks ≡ t ∷ ts
      → (handle_or_new q (lookup t.name p.task_ptrs)).sequence ≡ t.sequence
  unfolding find
  handle_of p t ts v e =
      let has : find q t.name p.tasks ≡ some t =
        rw (e, find) (ground (arith, eq_iff t.name t.name)) in
      elim (Option-cases (lookup t.name p.task_ptrs)) [
        | inl l ↦ absurd (
            ground (
              arith,
              has,
              subst (λ (o : Option (Handle q)). Agrees q o (find q t.name p.tasks)) l
                  (v.agrees t.name),
            ))
        | inr (h, l) ↦
            ap (λ (o : Option (Handle q)). (handle_or_new q o).sequence) l
            ∙ sym (
                (subst (λ (o : Option (Handle q)). Agrees q o (find q t.name p.tasks)) l
                    (v.agrees t.name)).1
                  t has)
      ]

  -- A task that a thread takes out of a valid pool and gives back, whatever it did to it but for its
  -- name and sequence, is accepted if nobody else called the pool, and becomes the last of the list;
  -- and TaskFilenum answers with the file that it is at, as int32_t.
  pub put_back-fetch_out :
      (p : Pool q) (t u : Task q) (ts : List (Task q))
      → IsValid q p
      → p.tasks ≡ t ∷ ts
      → u.name ≡ t.name
      → u.sequence ≡ t.sequence
      → ((put_back q (fetch_out q p).2 u).0 ≡ ok)
        × ((put_back q (fetch_out q p).2 u).1.tasks ≡ ts ++ u ∷ [])
        × (task_filenum q (put_back q (fetch_out q p).2 u).1 u.name ≡ to_int32 u.filenum)
  unfolding task_filenum
  put_back-fetch_out p t u ts v e name seq =
      let h : Handle q = record (handle_or_new q (lookup t.name p.task_ptrs)) { iter = none } in
      let here : lookup u.name (insert t.name h p.task_ptrs) ≡ some h =
        subst (λ (n : String). lookup n (insert t.name h p.task_ptrs) ≡ some h) (sym name)
          (lookup_here t.name h p.task_ptrs) in
      let out = ap (λ (x : Status × Option (Task q) × Pool q). x.2) (fetch_out-cons q p t ts e) in
      let back =
        ap (λ (x : Pool q). put_back q x u) out
        ∙ put_back-accepts q (record p { tasks = ts; task_ptrs = insert t.name h p.task_ptrs }) u h
            here refl (handle_of p t ts v e ∙ sym seq) in
      (
        ap (λ (x : Status × Pool q). x.0) back,
        ap (λ (x : Status × Pool q). x.1.tasks) back,
        ap (λ (x : Status × Pool q). task_filenum q x.1 u.name) back
            ∙ rw (
              lookup_here u.name (record h { iter = some u; filenum_snap = u.filenum })
                  (insert t.name h p.task_ptrs),
              task_filenum,
            ),
      )

  sought-task :
      (u t : Task q) (o : Option (Status × Reader q)) (s : Status)
      → sought q u o ≡ some (s, some t)
      → (t.name ≡ u.name) × (t.sequence ≡ u.sequence) × (t.filenum ≡ u.filenum)
  sought-task u t none s e = absurd (ground arith)
  sought-task u t (some (s', r)) s e =
      let u' : Task q = record u { reader = some r } in
      let made : (if is_ok s' then some u' else none) ≡ some t =
        ap (λ (x : Option (Status × Option (Task q))). elim x [ none ↦ none | some (c, o) ↦ o ])
          e in
      elim (Bool-cases (is_ok s')) [
        | inl h ↦
            let same = of_some (rw h at made) in
            (
              ap (λ (v : Task q). v.name) (sym same),
              ap (λ (v : Task q). v.sequence) (sym same),
              ap (λ (v : Task q). v.filenum) (sym same),
            )
        | inr h ↦ absurd (ground (arith, rw h at made))
      ]

  create-task :
      (fuel : Fuel) (files : BinlogFiles q) (sequence : ℕ) (name : String) (filenum offset : ℕ)
      (s : Status) (t : Task q)
      → create q fuel files sequence name filenum offset ≡ some (s, some t)
      → (t.name ≡ name) × (t.sequence ≡ sequence) × (t.filenum ≡ filenum)
  unfolding create
  create-task fuel files sequence name filenum offset s t e =
      elim (Bool-cases (is_ok (files.open_file filenum).0)) [
        | inl h ↦
            sought-task (new_task q sequence name filenum offset) t
              (seek q fuel.records fuel.rounds (reader_on q (files.open_file filenum).1) offset) s
              (rw (h, create) at e)
        | inr h ↦ absurd (ground (arith, rw (h, create) at e))
      ]

  -- The sequence that a name's handle has.
  unfoldable pub sequence_of : List (String × Handle q) → String → Option ℕ
  sequence_of m name = elim (lookup name m) [ none ↦ none | some h ↦ some h.sequence ]

  -- Calls of the pool by any threads, none of which removes the task of this name.
  pub data Leaves (name : String) : Pool q → Pool q → Type 0 where
    stays : {p : Pool q} → Leaves name p p
    counts :
        {p p' : Pool q} (n : ℕ) → Leaves name p p' → Leaves name p (record p' { next_sequence = n })
    adds : {p p' : Pool q} (t : Task q) → Leaves name p p' → Leaves name p (add_task q p' t).1
    removes :
        {p p' : Pool q} (other : String)
        → str_eq other name ≡ false
        → Leaves name p p'
        → Leaves name p (remove_task q p' other).1
    fetches : {p p' : Pool q} → Leaves name p p' → Leaves name p (fetch_out q p').2
    puts : {p p' : Pool q} (t : Task q) → Leaves name p p' → Leaves name p (put_back q p' t).1

  sequence_of-insert :
      (m : List (String × Handle q)) (k name : String) (h : Handle q) (n : ℕ)
      → (k ≡ name → h.sequence ≡ n)
      → sequence_of m name ≡ some n
      → sequence_of (insert k h m) name ≡ some n
  unfolding sequence_of
  sequence_of-insert m k name h n new e = elim (Bool-cases (str_eq k name)) [
    | inl same ↦
        rw (sequence_of, lookup-insert k name h m, same) (ap some (new ((eq_iff k name).0 same)))
    | inr other ↦ rw (sequence_of, lookup-insert k name h m, other) e
  ]

  no_sequence :
      (p : Pool q) (k name : String) (n : ℕ)
      → lookup k p.task_ptrs ≡ none
      → k ≡ name
      → sequence_of p.task_ptrs name ≡ some n
      → ⊥
  unfolding sequence_of
  no_sequence p k name n l same e =
      ground (arith, e, subst (λ (j : String). lookup j p.task_ptrs ≡ none) same l)

  sequence_of-add_task :
      (p : Pool q) (t : Task q) (name : String) (n : ℕ)
      → sequence_of p.task_ptrs name ≡ some n
      → sequence_of (add_task q p t).1.task_ptrs name ≡ some n
  unfolding add_task
  sequence_of-add_task p t name n e = elim (Option-cases (lookup t.name p.task_ptrs)) [
    | inl l ↦
        rw (l, add_task)
          (sequence_of-insert p.task_ptrs t.name name
            (record { iter = some t; sequence = t.sequence; filenum_snap = t.filenum }) n
            (λ same. absurd (no_sequence p t.name name n l same e)) e)
    | inr (h, l) ↦ rw (l, add_task) e
  ]

  sequence_of-remove_task :
      (p : Pool q) (name other : String) (n : ℕ)
      → str_eq other name ≡ false
      → sequence_of p.task_ptrs name ≡ some n
      → sequence_of (remove_task q p other).1.task_ptrs name ≡ some n
  unfolding sequence_of remove_task
  sequence_of-remove_task p name other n apart e = elim (Option-cases (lookup other p.task_ptrs)) [
    | inl l ↦ rw (l, remove_task) e
    | inr (h, l) ↦ rw (l, remove_task, sequence_of, lookup-erase other name p.task_ptrs, apart) e
  ]

  sequence_of-handle :
      (m : List (String × Handle q)) (name : String) (n : ℕ) (h : Handle q)
      → sequence_of m name ≡ some n
      → lookup name m ≡ some h
      → h.sequence ≡ n
  unfolding sequence_of
  sequence_of-handle m name n h e l = of_some (sym (rw (l, sequence_of)) ∙ e)

  sequence_of-fetch_out :
      (p : Pool q) (name : String) (n : ℕ)
      → sequence_of p.task_ptrs name ≡ some n
      → sequence_of (fetch_out q p).2.task_ptrs name ≡ some n
  unfolding fetch_out
  sequence_of-fetch_out p name n e = sequence_of-rest p.tasks refl
    where
      sequence_of-rest :
          (ts : List (Task q))
          → p.tasks ≡ ts
          → sequence_of (fetch_out q p).2.task_ptrs name ≡ some n
      sequence_of-rest [] l =
          ap (λ (x : Status × Option (Task q) × Pool q). sequence_of x.2.task_ptrs name)
            (fetch_out-nil q p l)
          ∙ e
      sequence_of-rest (t ∷ ts) l =
          ap (λ (x : Status × Option (Task q) × Pool q). sequence_of x.2.task_ptrs name)
            (fetch_out-cons q p t ts l)
          ∙ sequence_of-insert p.task_ptrs t.name name
              (record (handle_or_new q (lookup t.name p.task_ptrs)) { iter = none }) n
              (λ same. elim (Option-cases (lookup t.name p.task_ptrs)) [
                | inl c ↦ absurd (no_sequence p t.name name n c same e)
                | inr (h, c) ↦
                    ap (λ (o : Option (Handle q)). (handle_or_new q o).sequence) c
                    ∙ sequence_of-handle p.task_ptrs name n h e
                        (subst (λ (k : String). lookup k p.task_ptrs ≡ some h) same c)
              ])
              e

  sequence_of-put_back :
      (p : Pool q) (t : Task q) (name : String) (n : ℕ)
      → sequence_of p.task_ptrs name ≡ some n
      → sequence_of (put_back q p t).1.task_ptrs name ≡ some n
  unfolding put_back
  sequence_of-put_back p t name n e = elim (Option-cases (lookup t.name p.task_ptrs)) [
    | inl l ↦ rw (l, put_back) e
    | inr (h, l) ↦ elim (Bool-cases (not (is_end q h.iter) || not (h.sequence == t.sequence))) [
      | inl c ↦ rw (l, put_back, c) e
      | inr c ↦
          rw (l, put_back, c)
            (sequence_of-insert p.task_ptrs t.name name
              (record h { iter = some t; filenum_snap = t.filenum }) n
              (λ same.
                sequence_of-handle p.task_ptrs name n h e
                  (subst (λ (k : String). lookup k p.task_ptrs ≡ some h) same l))
              e)
    ]
  ]

  Leaves-sequence_of :
      {name : String} {p p' : Pool q} (n : ℕ)
      → Leaves name p p'
      → sequence_of p.task_ptrs name ≡ some n
      → sequence_of p'.task_ptrs name ≡ some n
  Leaves-sequence_of n stays e = e
  Leaves-sequence_of n (counts k l) e = Leaves-sequence_of n l e
  Leaves-sequence_of {name} n (adds {p} {p'} t l) e =
      sequence_of-add_task p' t name n (Leaves-sequence_of n l e)
  Leaves-sequence_of {name} n (removes {p} {p'} other apart l) e =
      sequence_of-remove_task p' name other n apart (Leaves-sequence_of n l e)
  Leaves-sequence_of {name} n (fetches {p} {p'} l) e =
      sequence_of-fetch_out p' name n (Leaves-sequence_of n l e)
  Leaves-sequence_of {name} n (puts {p} {p'} t l) e =
      sequence_of-put_back p' t name n (Leaves-sequence_of n l e)

  put_back-stale :
      (p : Pool q) (u : Task q) (n : ℕ)
      → sequence_of p.task_ptrs u.name ≡ some n
      → u.sequence ≢ n
      → put_back q p u ≡ (not_found, p)
  unfolding sequence_of
  put_back-stale p u n e stale = elim (Option-cases (lookup u.name p.task_ptrs)) [
    | inl l ↦ absurd (no_sequence p u.name u.name n l refl e)
    | inr (h, l) ↦
        put_back-refuses q p u h l
          (ground (arith, stale, sequence_of-handle p.task_ptrs u.name n h e l))
  ]

  absent :
      (p : Pool q) (name : String) → task_exist q p name ≡ false → lookup name p.task_ptrs ≡ none
  unfolding task_exist
  absent p name e = elim (Option-cases (lookup name p.task_ptrs)) [
    | inl l ↦ l
    | inr (h, l) ↦ absurd (ground (arith, rw (l, task_exist) at e))
  ]

  task_exist-remove_task :
      (p : Pool q) (name : String) → task_exist q (remove_task q p name).1 name ≡ false
  unfolding task_exist remove_task
  task_exist-remove_task p name = elim (Option-cases (lookup name p.task_ptrs)) [
    | inl l ↦ rw (l, remove_task, task_exist, l)
    | inr (h, l) ↦
        let gone : lookup name (erase name p.task_ptrs) ≡ none =
          ground (arith, lookup-erase name name p.task_ptrs, eq_iff name name) in
        rw (l, remove_task, task_exist, gone)
  ]

  -- No task of the name is there once AddNewTask has made room for it.
  task_exist-make_room :
      (others : Meanwhile q) (p : Pool q) (name : String)
      → task_exist q (make_room q others true p name) name ≡ false
  unfolding make_room
  task_exist-make_room others p name =
      elim (Bool-cases (task_exist q (others.before_exist p) name)) [
        | inl there ↦
            rw there (task_exist-remove_task (others.before_remove (others.before_exist p)) name)
        | inr gone ↦ rw gone gone
      ]

  add_task-taken :
      (p : Pool q) (t : Task q) → task_exist q p t.name ≡ true → add_task q p t ≡ (complete, p)
  unfolding add_task task_exist
  add_task-taken p t e = elim (Option-cases (lookup t.name p.task_ptrs)) [
    | inl l ↦ absurd (ground (arith, rw (l, task_exist) at e))
    | inr (h, l) ↦ rw (l, add_task)
  ]

  add_task-free :
      (p : Pool q) (t : Task q)
      → lookup t.name p.task_ptrs ≡ none
      → add_task q p t ≡ (
        ok,
        record p {
          tasks = p.tasks ++ t ∷ [];
          task_ptrs =
              insert t.name
                (record { iter = some t; sequence = t.sequence; filenum_snap = t.filenum })
                p.task_ptrs;
        },
      )
  unfolding add_task
  add_task-free p t e = rw (e, add_task)

  -- AddNewTask with force, once the task is created, whatever the other threads do to the pool
  -- before each of its three lock sections. No task of that name is there when it has made room. If
  -- the others add one before it takes the lock of AddTask, it returns Complete and leaves the pool
  -- as they left it. Else it succeeds, and TaskFilenum answers with the new task's file as int32_t;
  -- and from then on, whatever the threads call but for a removal of this name, a task of the same
  -- name and another sequence is not accepted back and leaves the pool as it is.
  pub add_new_task-replaces :
      (others : Meanwhile q) (fuel : Fuel) (files : BinlogFiles q) (p : Pool q) (name : String)
      (filenum offset : ℕ) (s : Status) (t : Task q)
      → create q fuel files p.next_sequence name filenum offset ≡ some (s, some t)
      → (room : Pool q) × (task_exist q room name ≡ false)
        × (((task_exist q (others.before_add room) name ≡ true)
              × (add_new_task q others fuel files p name filenum offset true
                  ≡ some (complete, others.before_add room)))
            ⊎ ((p' : Pool q) × (task_exist q (others.before_add room) name ≡ false)
                × (add_new_task q others fuel files p name filenum offset true ≡ some (ok, p'))
                × (task_filenum q p' name ≡ to_int32 filenum)
                × ((u : Task q) (later : Pool q)
                    → Leaves name p' later
                    → u.name ≡ name
                    → u.sequence ≢ p.next_sequence
                    → put_back q later u ≡ (not_found, later))))
  unfolding add_new_task add_created task_filenum sequence_of
  add_new_task-replaces others fuel files p name filenum offset s t made =
      let (name', seq, num) = create-task fuel files p.next_sequence name filenum offset s t made in
      let p1 : Pool q = record p { next_sequence = (p.next_sequence + 1) % 2 ^ 64 } in
      let room = make_room q others true p1 t.name in
      let p2 = others.before_add room in
      let run : add_new_task q others fuel files p name filenum offset true
          ≡ some (add_task q p2 t) =
        rw (add_new_task, made, add_created) in
      (
        room,
        subst (λ (k : String). task_exist q room k ≡ false) name'
            (task_exist-make_room others p1 t.name),
        elim (Bool-cases (task_exist q p2 name)) [
          | inl taken ↦ inl (
            taken,
            run
                ∙ ap some (
                    add_task-taken p2 t
                      (subst (λ (k : String). task_exist q p2 k ≡ true) (sym name') taken)),
          )
          | inr free ↦
              let h : Handle q = record {
                iter = some t;
                sequence = t.sequence;
                filenum_snap = t.filenum;
              } in
              let p3 : Pool q = record p2 {
                tasks = p2.tasks ++ t ∷ [];
                task_ptrs = insert t.name h p2.task_ptrs;
              } in
              let here =
                subst (λ (k : String). lookup k p3.task_ptrs ≡ some h) name'
                  (lookup_here t.name h p2.task_ptrs) in
              inr (
                p3,
                free,
                run
                    ∙ ap some (
                        add_task-free p2 t (
                          absent p2 t.name
                            (subst (λ (k : String). task_exist q p2 k ≡ false) (sym name') free))),
                rw (task_filenum, here) (ap to_int32 num),
                λ u later leaves same stale.
                    put_back-stale later u p.next_sequence
                      (subst (λ (k : String). sequence_of later.task_ptrs k ≡ some p.next_sequence)
                        (sym same)
                        (Leaves-sequence_of p.next_sequence leaves
                          (rw (sequence_of, here) (ap some seq))))
                      stale,
              )
        ],
      )
