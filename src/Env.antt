-- ===== src/Env.antt =====
-- What the program takes from the slash library (a submodule): the status codes, without their
-- messages, and the files. Files are parameters of the model, and the laws are what the code relies
-- on. A byte is a number below 256.
use zeppelin.Base.{ℕ, ◌≤◌, ◌<◌, ◌≡◌, Bool, true, false, List, ◌++◌, length, drop}

pub data Status : Type 0 where
  ok not_found corruption invalid_argument io_error end_file incomplete complete : Status

abbrev pub is_ok : Status → Bool
is_ok Status.ok = true
is_ok _ = false

-- slash::WritableFile
pub record WritableFiles : Type 1 where
  pub File : Type 0
  pub append : File → List ℕ → Status × File
  pub flush : File → Status × File
  pub file_size : File → ℕ
  pub trim : File → ℕ → Status × File

-- What the operations do to the bytes of the file when no operation fails.
pub record WritableLaws (w : WritableFiles) : Type 1 where
  pub contents : w.File → List ℕ
  pub append_ok : (f : w.File) (bs : List ℕ) → (w.append f bs).0 ≡ Status.ok
  pub append_contents : (f : w.File) (bs : List ℕ) → contents (w.append f bs).1 ≡ contents f ++ bs
  pub flush_ok : (f : w.File) → (w.flush f).0 ≡ Status.ok
  pub flush_contents : (f : w.File) → contents (w.flush f).1 ≡ contents f
  pub file_size_length : (f : w.File) → w.file_size f ≡ length (contents f)

-- slash::SequentialFile
pub record SequentialFiles : Type 1 where
  pub File : Type 0
  pub read : File → ℕ → Status × List ℕ × File
  pub skip : File → ℕ → Status × File

-- `rest` is what has not been read yet. A read that succeeds returns all the bytes asked for; one
-- that finds enough bytes succeeds, and one that does not finds the end of the file.
pub record SequentialLaws (q : SequentialFiles) : Type 1 where
  pub rest : q.File → List ℕ
  pub read_length : (f : q.File) (n : ℕ) → (q.read f n).0 ≡ Status.ok → length (q.read f n).1 ≡ n
  pub read_rest :
      (f : q.File) (n : ℕ)
      → (q.read f n).0 ≡ Status.ok
      → rest f ≡ (q.read f n).1 ++ rest (q.read f n).2
  pub read_ok : (f : q.File) (n : ℕ) → n ≤ length (rest f) → (q.read f n).0 ≡ Status.ok
  pub read_end : (f : q.File) (n : ℕ) → length (rest f) < n → (q.read f n).0 ≡ Status.end_file
  pub skip_rest : (f : q.File) (n : ℕ) → rest (q.skip f n).1 ≡ drop n (rest f)
