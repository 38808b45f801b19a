-- ===== src/Meta/Update/Tokens.antt =====
-- ApplyUpdates of src/meta/zp_meta_update_thread.cc: the end of its loop.
use zeppelin.Base.{ℕ, ◌≡◌, true, some}
use zeppelin.Env.{Status}
use zeppelin.Meta.Data.{Node, Formats}
use zeppelin.Meta.Store.{Floyds, Protos, Store}
use zeppelin.Meta.Store.Apply.{Taken, apply}
use zeppelin.Meta.Update.{is_io_error}

module _ (fm : Formats) (pb : Protos) (fl : Floyds) where
  -- The calls of Apply that the loop makes, from the state st and the store s: a call is made there,
  -- and again from what it leaves if it returns IOError.
  pub data Tries (mine : Node) (now : ℕ) (t : Taken) (st1 : fl.State) (s1 : Store)
      : fl.State → Store → Type 0 where
    here : Tries mine now t st1 s1 st1 s1
    again :
        {st st' : fl.State} {s s' : Store} (r : Status)
        → apply fm pb fl mine now t st s ≡ some (r, st', s')
        → is_io_error r ≡ true
        → Tries mine now t st1 s1 st' s'
        → Tries mine now t st1 s1 st s
