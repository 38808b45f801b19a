-- ===== src/Node/Sync/Replica.antt =====
-- A slave that takes items from its master, DoBinlogCommand of src/node/zp_data_partition.cc, against
-- the master that answers its clients by DoCommand.
use zeppelin.Base.{
  ℕ, zero, suc, ◌≤◌, ◌≡◌, refl, sym, ap, ◌∙◌, subst, inl, inr, ◌⊎◌, Bool, true, false, ◌&&◌, ◌||◌,
  not, Option, none, some, List, [], ◌∷◌, get_elem?, arith, Option-cases, Bool-cases, of_some, ltb,
  ltb→lt, not-ltb→le,
}
use zeppelin.Env.{Status}
use zeppelin.Node.World.{BinlogOffset, Code, offset_eq, offset_lt, World}
use zeppelin.Node.Partition.{Partition, master, role_eq, reset_recover_sync}
use zeppelin.Node.Sync.{SyncOption, check_sync_option, do_binlog_command, logged}
use zeppelin.Node.Serve.{Reply, refuses, is_code_ok, log_write, replied, do_command}

offset_lt_trans :
    (a b c : BinlogOffset) → offset_lt a b ≡ true → offset_lt b c ≡ true → offset_lt a c ≡ true
offset_lt_trans a b c h k = ground arith

offset_lt-ne : (a b : BinlogOffset) → offset_lt a b ≡ true → offset_eq a b ≡ true → ⊥
offset_lt-ne a b h k = ground arith

offset_lt_irrefl : (a : BinlogOffset) → offset_lt a a ≡ true → ⊥
offset_lt_irrefl a h = ground arith

offset_eq_sym : (a b : BinlogOffset) → offset_eq a b ≡ true → offset_eq b a ≡ true
offset_eq_sym a b h = ground arith

module _ (w : World) (radio : ℕ) where
  -- The binlog and the data of a partition.
  abbrev pub held : Partition w → w.Log × w.Db
  held p = (p.log, p.db)

  -- The master after the first k of the requests that its clients ask, each with the NowMicros() % 100
  -- at its time.
  unfoldable pub master_at : Partition w → List (ℕ × w.Request) → ℕ → Option (Partition w)
  master_at m asked zero = some m
  master_at m [] (suc k) = none
  master_at m ((percent, req) ∷ asked) (suc k) = elim (do_command w percent radio m req) [
    | none ↦ none
    | some (reply, m') ↦ master_at m' asked k
  ]

  -- Each request leaves the master's binlog and data as they are, or moves the position of its
  -- binlog forward.
  unfoldable pub IsSteady : Partition w → List (ℕ × w.Request) → Type 0
  IsSteady m [] = Unit
  IsSteady m ((percent, req) ∷ asked) = elim (do_command w percent radio m req) as (λ x. Type 0) [
    | none ↦ Unit
    | some (reply, m') ↦
        ((held m' ≡ held m) ⊎ (offset_lt (w.position m.log) (w.position m'.log) ≡ true))
        × IsSteady m' asked
  ]

  -- An item of the master's binlog: it logged a request, and the item has the position of the
  -- binlog before that, the bytes that GenerateLog made, and a command that does the same to the
  -- data.
  pub data Sent (m : Partition w) (asked : List (ℕ × w.Request)) (option : SyncOption)
      (item : w.Request) : Type 0 where
    sent :
        (j percent : ℕ) (req : w.Request) (reply : Reply) (p p' : Partition w) (bytes : List ℕ)
        → master_at m asked j ≡ some p
        → get_elem? asked j ≡ some (percent, req)
        → do_command w percent radio p req ≡ some (reply, p')
        → offset_lt (w.position p.log) (w.position p'.log) ≡ true
        → w.generate_log req ≡ some bytes
        → option.at ≡ w.position p.log
        → w.raw item ≡ bytes
        → (w.run item p.db).1 ≡ (w.run req p.db).1
        → Sent m asked option item

  -- The partition has the binlog and the data of the master after k requests.
  abbrev pub IsReplica : Partition w → List (ℕ × w.Request) → Partition w → ℕ → Type 0
  IsReplica m asked p k = (q : Partition w) × (master_at m asked k ≡ some q) × (held p ≡ held q)

  -- Several items, each in its own do_binlog_command.
  abbrev pub deliver : ℕ → Partition w → List (SyncOption × w.Request) → Option (Partition w)
  deliver now p [] = some p
  deliver now p ((option, item) ∷ items) = elim (do_binlog_command w now p option item) [
    | none ↦ none
    | some q ↦ deliver now q items
  ]

  -- Each item is one of the master's binlog.
  unfoldable pub AllSent :
      Partition w → List (ℕ × w.Request) → List (SyncOption × w.Request) → Type 0
  AllSent m asked [] = Unit
  AllSent m asked ((option, item) ∷ items) = Sent m asked option item × AllSent m asked items

  -- The later of two states is the same, or further on.
  abbrev Ahead : Partition w → Partition w → Type 0
  Ahead p q = (held q ≡ held p) ⊎ (offset_lt (w.position p.log) (w.position q.log) ≡ true)

  Ahead-trans : (p q r : Partition w) → Ahead p q → Ahead q r → Ahead p r
  Ahead-trans p q r (inl e) (inl f) = inl (f ∙ e)
  Ahead-trans p q r (inl e) (inr f) = inr (
      subst (λ (l : w.Log). offset_lt (w.position l) (w.position r.log) ≡ true)
        (ap (λ (x : w.Log × w.Db). x.0) e) f)
  Ahead-trans p q r (inr e) (inl f) = inr (
      subst (λ (l : w.Log). offset_lt (w.position p.log) (w.position l) ≡ true)
        (sym (ap (λ (x : w.Log × w.Db). x.0) f)) e)
  Ahead-trans p q r (inr e) (inr f) =
      inr (offset_lt_trans (w.position p.log) (w.position q.log) (w.position r.log) e f)

  -- The first request of a steady master, and the rest.
  IsSteady-step :
      (m m' : Partition w) (percent : ℕ) (req : w.Request) (reply : Reply)
      (asked : List (ℕ × w.Request))
      → IsSteady m ((percent, req) ∷ asked)
      → do_command w percent radio m req ≡ some (reply, m')
      → Ahead m m' × IsSteady m' asked
  unfolding IsSteady
  IsSteady-step m m' percent req reply asked h e = rw (IsSteady, e) at h

  master_at-step :
      (m m' : Partition w) (percent k : ℕ) (req : w.Request) (reply : Reply)
      (asked : List (ℕ × w.Request))
      → do_command w percent radio m req ≡ some (reply, m')
      → master_at m ((percent, req) ∷ asked) (suc k) ≡ master_at m' asked k
  unfolding master_at
  master_at-step m m' percent k req reply asked e = rw (e, master_at)

  master_at-stuck :
      (m : Partition w) (percent k : ℕ) (req : w.Request) (asked : List (ℕ × w.Request))
      → do_command w percent radio m req ≡ none
      → master_at m ((percent, req) ∷ asked) (suc k) ≡ none
  unfolding master_at
  master_at-stuck m percent k req asked e = rw (e, master_at)

  master_at-Ahead :
      (asked : List (ℕ × w.Request)) (m p : Partition w) (k : ℕ)
      → IsSteady m asked
      → master_at m asked k ≡ some p
      → Ahead m p
  unfolding master_at
  master_at-Ahead asked m p zero h e = inl (ap held (sym (of_some e)))
  master_at-Ahead [] m p (suc k) h e = absurd (ground (arith, e))
  master_at-Ahead ((percent, req) ∷ asked) m p (suc k) h e =
      elim (Option-cases (do_command w percent radio m req)) [
        | inl stuck ↦ absurd (ground (arith, sym (master_at-stuck m percent k req asked stuck) ∙ e))
        | inr ((reply, m'), made) ↦
            let (step, rest) = IsSteady-step m m' percent req reply asked h made in
            Ahead-trans m m' p step (
              master_at-Ahead asked m' p k rest
                (sym (master_at-step m m' percent k req reply asked made) ∙ e))
      ]

  master_at-ordered :
      (asked : List (ℕ × w.Request)) (m p q : Partition w) (j k : ℕ)
      → IsSteady m asked
      → master_at m asked j ≡ some p
      → master_at m asked k ≡ some q
      → j ≤ k
      → Ahead p q
  unfolding master_at
  master_at-ordered asked m p q zero k h e f le =
      subst (λ (x : Partition w). Ahead x q) (of_some e) (master_at-Ahead asked m q k h f)
  master_at-ordered asked m p q (suc j) zero h e f le = absurd (omega arith)
  master_at-ordered [] m p q (suc j) (suc k) h e f le = absurd (ground (arith, e))
  master_at-ordered ((percent, req) ∷ asked) m p q (suc j) (suc k) h e f le =
      elim (Option-cases (do_command w percent radio m req)) [
        | inl stuck ↦ absurd (ground (arith, sym (master_at-stuck m percent j req asked stuck) ∙ e))
        | inr ((reply, m'), made) ↦
            let (step, rest) = IsSteady-step m m' percent req reply asked h made in
            master_at-ordered asked m' p q j k rest
              (sym (master_at-step m m' percent j req reply asked made) ∙ e)
              (sym (master_at-step m m' percent k req reply asked made) ∙ f) (omega arith)
      ]

  master_at-suc :
      (asked : List (ℕ × w.Request)) (m p p' : Partition w) (percent j : ℕ) (req : w.Request)
      (reply : Reply)
      → master_at m asked j ≡ some p
      → get_elem? asked j ≡ some (percent, req)
      → do_command w percent radio p req ≡ some (reply, p')
      → master_at m asked (suc j) ≡ some p'
  unfolding master_at
  master_at-suc [] m p p' percent j req reply e f g = absurd (ground (arith, f))
  master_at-suc ((pc, r) ∷ asked) m p p' percent zero req reply e f g =
      let same : do_command w pc radio m r ≡ some (reply, p') =
        ap (λ (x : Partition w). do_command w pc radio x r) (of_some e)
        ∙ (ap (λ (x : ℕ × w.Request). do_command w x.0 radio p x.1) (of_some f) ∙ g) in
      master_at-step m p' pc zero r reply asked same
  master_at-suc ((pc, r) ∷ asked) m p p' percent (suc j) req reply e f g =
      elim (Option-cases (do_command w pc radio m r)) [
        | inl stuck ↦ absurd (ground (arith, sym (master_at-stuck m pc j r asked stuck) ∙ e))
        | inr ((reply', m'), made) ↦
            master_at-step m m' pc (suc j) r reply' asked made
            ∙ master_at-suc asked m' p p' percent j req reply
                (sym (master_at-step m m' pc j r reply' asked made) ∙ e) f g
      ]

  unmoved :
      (p p' : Partition w)
      → p.log ≡ p'.log
      → offset_lt (w.position p.log) (w.position p'.log) ≡ true
      → ⊥
  unmoved p p' e h =
      offset_lt_irrefl (w.position p'.log)
        (subst (λ (l : w.Log). offset_lt (w.position l) (w.position p'.log) ≡ true) e h)

  log_write-moved :
      (p p' : Partition w) (c : Code) (db : w.Db) (bytes : List ℕ) (reply : Reply)
      → replied w c (log_write w p c db (some bytes)) ≡ some (reply, p')
      → offset_lt (w.position p.log) (w.position p'.log) ≡ true
      → (s : Status) × (w.put p.log bytes ≡ some (s, p'.log)) × (db ≡ p'.db)
  log_write-moved p p' c db bytes reply e moved = elim (Bool-cases (is_code_ok c)) [
    | inl fine ↦ elim (Option-cases (w.put p.log bytes)) [
      | inl failed ↦ absurd (
          ground (
            arith,
            sym (ap (λ (o : Option (Status × w.Log)). replied w c (logged w p db o)) failed)
                ∙ (sym (ap answer fine) ∙ e),
          ))
      | inr ((s, log), made) ↦
          let same = of_some (
            sym (ap (λ (o : Option (Status × w.Log)). replied w c (logged w p db o)) made)
            ∙ (sym (ap answer fine) ∙ e)) in
          (
            s,
            made ∙ ap (λ (x : Reply × Partition w). some (s, x.1.log)) same,
            ap (λ (x : Reply × Partition w). x.1.db) same,
          )
    ]
    | inr bad ↦ absurd (
        unmoved p p' (ap (λ (x : Reply × Partition w). x.1.log) (of_some (sym (ap answer bad) ∙ e)))
          moved)
  ]
    where
      answer : Bool → Option (Reply × Partition w)
      answer fine = replied w c (elim fine [
        | true ↦ logged w p db (w.put p.log bytes)
        | false ↦ some (record p { db = db })
      ])

  -- A request that moves the position was logged: Put took the bytes of GenerateLog.
  do_command-moved :
      (p p' : Partition w) (percent : ℕ) (req : w.Request) (reply : Reply) (bytes : List ℕ)
      → do_command w percent radio p req ≡ some (reply, p')
      → offset_lt (w.position p.log) (w.position p'.log) ≡ true
      → w.generate_log req ≡ some bytes
      → (s : Status) × (w.put p.log bytes ≡ some (s, p'.log)) × ((w.run req p.db).1 ≡ p'.db)
  unfolding do_command
  do_command-moved p p' percent req reply bytes e moved gen =
      elim (Bool-cases (not p.opened || not (role_eq p.role master))) [
        | inl other ↦ absurd (
            unmoved p p'
              (ap (λ (x : Reply × Partition w). x.1.log) (of_some (rw (do_command, other) at e)))
              moved)
        | inr serves ↦ elim (Bool-cases (w.is_write req && refuses p.pstate percent radio)) [
          | inl waits ↦ absurd (
              unmoved p p'
                (ap (λ (x : Reply × Partition w). x.1.log)
                  (of_some (rw (do_command, serves, waits) at e)))
                moved)
          | inr goes ↦ elim (Bool-cases (w.is_write req)) [
            | inl writes ↦
                log_write-moved p p' (w.run req p.db).0 (w.run req p.db).1 bytes reply
                  (rw (do_command, serves, goes, writes, gen) at e) moved
            | inr reads ↦ absurd (
                unmoved p p'
                  (ap (λ (x : Reply × Partition w). x.1.log)
                    (of_some (rw (do_command, serves, goes, reads) at e)))
                  moved)
          ]
        ]
      ]

  -- The check leaves the binlog and the data alone.
  check-same :
      (now : ℕ) (p : Partition w) (option : SyncOption)
      → held (check_sync_option w now p option).1 ≡ held p
  unfolding check_sync_option reset_recover_sync
  check-same now p option = ground arith

  check-taken :
      (now : ℕ) (p : Partition w) (option : SyncOption)
      → (check_sync_option w now p option).0 ≡ true
      → offset_eq option.at (w.position p.log) ≡ true
  unfolding check_sync_option
  check-taken now p option h = ground arith

  -- What a slave does with the bytes of an item, where it holds what the master held.
  logged-same :
      (q p p' : Partition w) (item : w.Request) (bytes : List ℕ) (s : Status)
      → held q ≡ held p
      → w.put p.log bytes ≡ some (s, p'.log)
      → (w.run item p.db).1 ≡ p'.db
      → w.raw item ≡ bytes
      → (q' : Partition w) × (logged w q (w.run item q.db).1 (w.put q.log (w.raw item)) ≡ some q')
        × (held q' ≡ held p')
  logged-same q p p' item bytes s same put run raw =
      let made : w.put q.log (w.raw item) ≡ some (s, p'.log) =
        ap (λ (x : w.Log × w.Db). w.put x.0 (w.raw item)) same ∙ (ap (w.put p.log) raw ∙ put) in
      (
        record q { db = (w.run item q.db).1; log = p'.log },
        ap (logged w q (w.run item q.db).1) made,
        ap (λ (d : w.Db). (p'.log, d)) (ap (λ (x : w.Log × w.Db). (w.run item x.1).1) same ∙ run),
      )

  further_on :
      (p q r : Partition w)
      → offset_lt (w.position p.log) (w.position q.log) ≡ true
      → Ahead q r
      → offset_lt (w.position p.log) (w.position r.log) ≡ true
  further_on p q r lt (inl e) =
      subst (λ (l : w.Log). offset_lt (w.position p.log) (w.position l) ≡ true)
        (sym (ap (λ (x : w.Log × w.Db). x.0) e)) lt
  further_on p q r lt (inr lt') =
      offset_lt_trans (w.position p.log) (w.position q.log) (w.position r.log) lt lt'

  -- An item that the slave takes is the master's next.
  taken-next :
      (m p p' mk : Partition w) (asked : List (ℕ × w.Request)) (j k percent : ℕ) (req : w.Request)
      (reply : Reply)
      → IsSteady m asked
      → master_at m asked j ≡ some p
      → get_elem? asked j ≡ some (percent, req)
      → do_command w percent radio p req ≡ some (reply, p')
      → offset_lt (w.position p.log) (w.position p'.log) ≡ true
      → master_at m asked k ≡ some mk
      → offset_eq (w.position p.log) (w.position mk.log) ≡ true
      → (k ≤ j) × (held mk ≡ held p)
  taken-next m p p' mk asked j k percent req reply steady at_j is_req served moved at_k same =
      elim (Bool-cases (ltb j k)) [
        | inl before ↦
            let after = master_at-suc asked m p p' percent j req reply at_j is_req served in
            let lt = further_on p p' mk moved (
              master_at-ordered asked m p' mk (suc j) k steady after at_k
                (omega (arith, ltb→lt j k before))) in
            absurd (offset_lt-ne (w.position p.log) (w.position mk.log) lt same)
        | inr not_before ↦
            let le : k ≤ j = not-ltb→le j k not_before in
            elim (master_at-ordered asked m mk p k j steady at_k at_j le) [
              | inl e ↦ (le, sym e)
              | inr lt ↦ absurd (
                  offset_lt-ne (w.position mk.log) (w.position p.log) lt
                    (offset_eq_sym (w.position p.log) (w.position mk.log) same))
            ]
      ]

  -- What do_binlog_command makes of the check's answer.
  handled-IsReplica :
      (m q : Partition w) (asked : List (ℕ × w.Request)) (k : ℕ) (taken : Bool) (item : w.Request)
      → IsReplica m asked q k
      → (taken ≡ true
          → (q' : Partition w) × (k' : ℕ) × (logged w q
                (w.run item q.db).1
                (w.put q.log (w.raw item))
              ≡ some q')
            × (k ≤ k')
            × IsReplica m asked q' k')
      → (q' : Partition w) × (elim taken as (λ t. Option (Partition w)) [
        | true ↦ logged w q (w.run item q.db).1 (w.put q.log (w.raw item))
        | false ↦ some q
      ]
          ≡ some q')
        × (k' : ℕ) × (k ≤ k')
        × IsReplica m asked q' k'
  handled-IsReplica m q asked k false item at_k h = (q, refl, k, ground arith, at_k)
  handled-IsReplica m q asked k true item at_k h =
      let (q', k', made, le, at_k') = h refl in (q', made, k', le, at_k')

  command-IsReplica :
      (m : Partition w) (asked : List (ℕ × w.Request)) (now : ℕ) (p : Partition w) (k : ℕ)
      (option : SyncOption) (item : w.Request)
      → IsSteady m asked
      → IsReplica m asked p k
      → Sent m asked option item
      → (p' : Partition w) × (do_binlog_command w now p option item ≡ some p')
        × (k' : ℕ) × (k ≤ k')
        × IsReplica m asked p' k'
  unfolding do_binlog_command
  command-IsReplica m asked now p k option item steady (mk, at_k, holds)
        (sent j percent req reply pj pj' bytes at_j is_req served moved gen is_at raw run) =
      let q = (check_sync_option w now p option).1 in
      let same_q : held q ≡ held mk = check-same now p option ∙ holds in
      handled-IsReplica m q asked k (check_sync_option w now p option).0 item (mk, at_k, same_q)
        (λ taken.
          let here : offset_eq (w.position pj.log) (w.position mk.log) ≡ true =
            ap (λ (x : BinlogOffset × w.Log). offset_eq x.0 (w.position x.1))
              (λ i. (sym is_at i, sym (ap (λ (x : w.Log × w.Db). x.0) holds) i))
            ∙ check-taken now p option taken in
          let (le, same) =
            taken-next m pj pj' mk asked j k percent req reply steady at_j is_req served moved at_k
              here in
          let (s, put, ran) = do_command-moved pj pj' percent req reply bytes served moved gen in
          let (q', made, at_next) =
            logged-same q pj pj' item bytes s (same_q ∙ same) put (run ∙ ran) raw in
          (
            q',
            suc j,
            made,
            omega (arith, le),
            (pj', master_at-suc asked m pj pj' percent j req reply at_j is_req served, at_next),
          ))

  -- The master answers requests of its clients, each of which leaves its binlog and data alone or
  -- moves its binlog's position forward. A slave that holds the binlog and the data that the master
  -- had after some number of the requests is handed items of the master's binlog, in any order, with
  -- repeats and omissions: each has the position that the binlog had before the master logged it,
  -- the logged bytes, and a command that changes the master's data of that time as the master's
  -- request did. Then every do_binlog_command returns, and in the end the slave holds the binlog and
  -- the data that the master had after some number of the requests, no fewer than before.
  pub deliver-IsReplica :
      (m : Partition w) (asked : List (ℕ × w.Request)) (now : ℕ) (p : Partition w) (k : ℕ)
      (items : List (SyncOption × w.Request))
      → IsSteady m asked
      → IsReplica m asked p k
      → AllSent m asked items
      → (p' : Partition w) × (deliver now p items ≡ some p')
        × (k' : ℕ) × (k ≤ k')
        × IsReplica m asked p' k'
  unfolding AllSent
  deliver-IsReplica m asked now p k [] steady at_k all = (p, refl, k, ground arith, at_k)
  deliver-IsReplica m asked now p k ((option, item) ∷ items) steady at_k (is_sent, all) =
      let (q, e, j, le, at_j) = command-IsReplica m asked now p k option item steady at_k is_sent in
      let (p', f, k', le', at_k') = deliver-IsReplica m asked now q j items steady at_j all in
      (
        p',
        ap (λ (o : Option (Partition w)). elim o [ none ↦ none | some r ↦ deliver now r items ]) e
            ∙ f,
        k',
        omega (arith, le, le'),
        at_k',
      )
