-- ===== src/Tests/Senders.antt =====
-- A task of src/node/zp_binlog_sender.cc on a binlog of two items, and the pool with one task.
use zeppelin.Base.{
  ℕ, ◌^◌, ◌≡◌, ◌≢◌, ◌<◌, ◌⊎◌, refl, true, false, some, List, [], ◌∷◌, length, arith,
}
use zeppelin.Base.Int.{pos}
use zeppelin.Base.Assoc.{lookup}
use zeppelin.Env.{ok, end_file, not_found, complete}
use zeppelin.Binlog.Format.{header}
use zeppelin.Binlog.Reader.{seek, seek_loop, binlog_block_start}
use zeppelin.Binlog.Encoding.{encode, piece, gap, part, start, rest_of, final_offset, offset_after}
use zeppelin.Node.World.{BinlogOffset}
use zeppelin.Node.Sender.{Task, BinlogFiles, Fuel, new_task, reader_on, create}
use zeppelin.Node.Sender.Follows.{stream, commands, IsBefore, sends_all, sends_all-commands}
use zeppelin.Node.Sender.Pool.{
  Pool, new_pool, add_task, add_new_task, fetch_out, put_back, task_filenum, Meanwhile, task_exist,
}
use zeppelin.Node.Sender.Pool.Valid.{IsValid, empty, next, adds, Reach-IsValid}
use zeppelin.Node.Sender.Pool.Turns.{Leaves, put_back-fetch_out, add_new_task-replaces}
use zeppelin.Tests.Instances.{tape, tape_laws}

abbrev items : List (List ℕ)
items = (7 ∷ 8 ∷ []) ∷ (9 ∷ []) ∷ []

abbrev one_file : BinlogFiles tape
one_file = record { open_file = λ n. (ok, stream 0 items); exists = λ n. false }

abbrev ready : Task tape
ready = record (new_task tape 0 "t_0_s_1" 3 0) { reader = some (reader_on tape (stream 0 items)) }

ready-IsBefore : IsBefore tape tape_laws (λ bytes. true) ready items 0
ready-IsBefore = record {
  reader = reader_on tape (stream 0 items);
  has = refl;
  block = refl;
  in_block = omega arith;
  left = refl;
  sends = refl;
}

abbrev fuel : Fuel
fuel = record { records = 5; rounds = 1 }

abbrev end : BinlogOffset
end = record { filenum = 3; offset = length (stream 0 items) }

end_in_range : end.offset < 2 ^ 64
unfolding encode piece header gap part start rest_of final_offset offset_after
end_in_range = omega arith

sends_all-commands_example :
    sends_all tape tape_laws (λ bytes. true) 3 1 fuel one_file end 0 ready
    ≡ some (commands 3 0 0 items, end_file)
sends_all-commands_example =
    sends_all-commands tape tape_laws (λ bytes. true) items 0 fuel one_file end 0 ready 0
      ready-IsBefore (omega arith, omega arith, refl, (omega arith, omega arith, refl, tt)) refl
      (omega arith) end_in_range

abbrev added : Pool tape
added = (add_task tape (new_pool tape) ready).1

added-IsValid : IsValid tape added
added-IsValid = Reach-IsValid tape (next empty (adds (new_pool tape) ready))

Reach-IsValid_example : IsValid tape added
Reach-IsValid_example = Reach-IsValid tape (next empty (adds (new_pool tape) ready))

abbrev moved : Task tape
moved = record ready { filenum = 4 }

added_tasks : added.tasks ≡ ready ∷ []
unfolding add_task lookup
added_tasks = refl

put_back-fetch_out_example :
    ((put_back tape (fetch_out tape added).2 moved).0 ≡ ok)
    × ((put_back tape (fetch_out tape added).2 moved).1.tasks ≡ moved ∷ [])
    × (task_filenum tape (put_back tape (fetch_out tape added).2 moved).1 "t_0_s_1" ≡ pos 4)
put_back-fetch_out_example =
    put_back-fetch_out tape added ready moved [] added-IsValid added_tasks refl refl

abbrev newer : Task tape
newer = record ready { sequence = 1 }

-- Another thread fetches a task before the new one is added.
abbrev fetching : Meanwhile tape
fetching = record {
  before_exist = λ p. p;
  before_remove = λ p. p;
  before_add = λ p. (fetch_out tape p).2;
}

abbrev in_use : Pool tape
in_use = record added { next_sequence = 1 }

create_newer : create tape fuel one_file 1 "t_0_s_1" 3 0 ≡ some (ok, some newer)
unfolding create seek seek_loop encode binlog_block_start
create_newer = refl

add_new_task-replaces_example :
    (room : Pool tape) × (task_exist tape room "t_0_s_1" ≡ false)
    × (((task_exist tape (fetching.before_add room) "t_0_s_1" ≡ true)
          × (add_new_task tape fetching fuel one_file in_use "t_0_s_1" 3 0 true
              ≡ some (complete, fetching.before_add room)))
        ⊎ ((p' : Pool tape) × (task_exist tape (fetching.before_add room) "t_0_s_1" ≡ false)
            × (add_new_task tape fetching fuel one_file in_use "t_0_s_1" 3 0 true ≡ some (ok, p'))
            × (task_filenum tape p' "t_0_s_1" ≡ pos 3)
            × ((u : Task tape) (later : Pool tape)
                → Leaves tape "t_0_s_1" p' later
                → u.name ≡ "t_0_s_1"
                → u.sequence ≢ 1
                → put_back tape later u ≡ (not_found, later))))
add_new_task-replaces_example =
    add_new_task-replaces tape fetching fuel one_file in_use "t_0_s_1" 3 0 ok newer create_newer
