-- ===== src/Node/Roles.antt =====
-- The role, the open files and the connection state of a partition under the role changes of
-- src/node/zp_data_partition.cc.
use zeppelin.Base.{
  ℕ, ◌≡◌, sym, ap, ◌∙◌, Bool, true, false, ◌&&◌, not, Option, none, some, List, Option-cases,
  Bool-cases, inl, inr, arith, of_some, subst,
}
use zeppelin.Node.World.{Node, World, node_eq}
use zeppelin.Node.Partition.{
  Partition, Disk, Role, PState, ReplState, single, master, slave, no_connect, should_connect,
  role_eq, repl_eq, open_files, install, close, emit, reset_recover_sync, become_single,
  become_master, become_slave, clean_slaves, new_role, change_role, update,
}

-- A single node has its files closed, the others have them open; only a slave has a connection.
abbrev pub agrees : Role → Bool → ReplState → Bool
agrees single opened repl = not opened && repl_eq repl no_connect
agrees master opened repl = opened && repl_eq repl no_connect
agrees slave opened repl = opened && not (repl_eq repl no_connect)

module _ (w : World) where
  abbrev pub IsSound : Partition w → Type 0
  IsSound p = agrees p.role p.opened p.repl_state ≡ true

  install-opened :
      (p q : Partition w) (disk : Disk w) (db : Option w.Db) (log : Option w.Log)
      → install w p disk db log ≡ some q
      → q.opened ≡ true
  install-opened p q disk (some db) (some log) e = ground arith
  install-opened p q disk (some db) none e = absurd (ground arith)
  install-opened p q disk none log e = absurd (ground arith)

  open_files-opened :
      (p q : Partition w) (disk : Disk w) → open_files w p disk ≡ some q → q.opened ≡ true
  unfolding open_files
  open_files-opened p q disk e = elim (Bool-cases p.opened) [
    | inl already ↦ ap (λ (x : Partition w). x.opened) (sym (of_some (rw already at e)))
    | inr closed ↦ elim (Bool-cases disk.checked) [
      | inl good ↦ install-opened p q disk disk.engine disk.binlog (rw (closed, good) at e)
      | inr bad ↦ absurd (ground arith)
    ]
  ]

  pub become_single-IsSound :
      (delete : Bool) (p : Partition w)
      → IsSound (become_single w delete p) × ((become_single w delete p).role ≡ single)
  unfolding become_single close emit
  become_single-IsSound delete p = ground arith

  become_master-IsSound :
      (disk : Disk w) (p q : Partition w)
      → become_master w disk p ≡ some q
      → IsSound q × (q.role ≡ master)
  unfolding become_master
  become_master-IsSound disk p q e = elim (Option-cases (open_files w p disk)) [
    | inl failed ↦ absurd (ground (arith, failed))
    | inr (r, made) ↦ let opened = open_files-opened p r disk made in ground (arith, made, opened)
  ]

  -- A slave starts without a connection, and asks for one.
  pub become_slave-IsSound :
      (disk : Disk w) (now : ℕ) (p q : Partition w)
      → become_slave w disk now p ≡ some q
      → IsSound q × (q.role ≡ slave) × (q.repl_state ≡ should_connect)
  unfolding become_slave reset_recover_sync emit
  become_slave-IsSound disk now p q e = elim (Option-cases (open_files w p disk)) [
    | inl failed ↦ absurd (ground (arith, failed))
    | inr (r, made) ↦ let opened = open_files-opened p r disk made in ground (arith, made, opened)
  ]

  role_eq-eq : (a b : Role) → role_eq a b ≡ true → a ≡ b
  role_eq-eq a b h = ground arith

  change_role-IsSound :
      (delete : Bool) (disk : Disk w) (now : ℕ) (p q : Partition w) (role' : Role) (changed : Bool)
      → IsSound p
      → change_role w delete disk now p role' changed ≡ some q
      → IsSound q × (q.role ≡ role')
  unfolding change_role
  change_role-IsSound delete disk now p q role' changed h e =
      elim (Bool-cases (role_eq p.role role')) [
        | inl same ↦ elim (Bool-cases (changed && role_eq p.role slave)) [
          | inl moved ↦
              let (sound, is_slave, _) =
                become_slave-IsSound disk now p q (rw (same, moved) at e) in
              (sound, ground (arith, is_slave))
          | inr stays ↦
              let kept : p ≡ q = of_some (rw (same, stays) at e) in
              (
                subst IsSound kept h,
                ap (λ (x : Partition w). x.role) (sym kept) ∙ role_eq-eq p.role role' same,
              )
        ]
        | inr other ↦ by_role role' other e
      ]
    where
      by_role :
          (r : Role)
          → role_eq p.role r ≡ false
          → change_role w delete disk now p r changed ≡ some q
          → IsSound q × (q.role ≡ r)
      by_role single n x =
          subst (λ (y : Partition w). IsSound y × (y.role ≡ single)) (of_some (rw n at x))
            (become_single-IsSound delete p)
      by_role master n x = become_master-IsSound disk p q (rw n at x)
      by_role slave n x =
          let (sound, is_slave, _) = become_slave-IsSound disk now p q (rw n at x) in
          (sound, is_slave)

  pub update-IsSound :
      (delete : Bool) (is_self : Node → Bool) (disk : Disk w) (now : ℕ) (p q : Partition w)
      (state : PState) (m : Node) (slaves : List Node)
      → IsSound p
      → update w delete is_self disk now p state m slaves ≡ some q
      → IsSound q × (q.role ≡ new_role is_self m slaves)
  unfolding update clean_slaves emit
  update-IsSound delete is_self disk now p q state m slaves h e =
      change_role-IsSound delete disk now _ q (new_role is_self m slaves)
        (not (node_eq p.master_node m)) (ground arith) e
