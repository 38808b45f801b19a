-- ===== src/Meta/Election.antt =====
-- class ZPMetaElection of src/meta/zp_meta_election.cc. The record of the leader in floyd is a value,
-- `none` where there is none; whether each call of floyd succeeds, and the time, are arguments. The
-- lock of floyd is held from TryLock to UnLock, so GetLeader is two steps, before and under the lock,
-- between which other servers can take steps. A write that fails has no effect.
pub mod Safety
use text.Mathlib.Text.{◌==◌ as str_eq}
use zeppelin.Base.{
  ℕ, ◌+◌, ◌-◌, ◌*◌, Bool, true, false, ◌&&◌, ◌||◌, not, Option, none, some, leb, ◌==◌,
  if◌then◌else◌,
}
use zeppelin.Meta.Data.{Node}

-- ZPMeta::MetaLeader
pub record Leader : Type 0 where
  pub leader : Node
  pub last_active : ℕ

-- kMetaLeaderTimeout, kMetaLeaderRemainThreshold, in seconds
abbrev pub leader_timeout : ℕ
leader_timeout = 60

abbrev pub leader_remain_threshold : ℕ
leader_remain_threshold = 10

-- The comparison of ip and of port.
unfoldable pub same_address : Node → Node → Bool
same_address a b = str_eq a.ip b.ip && a.port == b.port

-- IsLeaderTimeout at the time `now`, in microseconds
unfoldable pub is_leader_timeout : ℕ → ℕ → ℕ → Bool
is_leader_timeout now last_active timeout = leb (last_active + timeout * 1000 * 1000) now

-- Jeopardy: the leader that it finds, where it returns true.
unfoldable pub jeopardy : ℕ → Node → Option Leader → Option Node
jeopardy now mine none = none
jeopardy now mine (some last) =
    let timeout =
      if same_address last.leader mine
      then leader_timeout - leader_remain_threshold
      else leader_timeout in
    if is_leader_timeout now last.last_active timeout then none else some last.leader

-- last_leader_ after a successful read.
abbrev pub cached : Option Leader → Option Leader → Option Leader
cached none last = last
cached (some l) last = some l

-- GetLeader before TryLock.
pub data Looked : Type 0 where
  answers : Option Node → Looked
  goes_on : Looked

unfoldable pub look_at : ℕ → Node → Option Leader → Looked
look_at now mine none = goes_on
look_at now mine (some l) =
    if not (same_address mine l.leader) && not (is_leader_timeout now l.last_active leader_timeout)
    then answers (some l.leader)
    else goes_on

unfoldable pub look : ℕ → Node → Bool → Option Leader → Option Leader → Looked × Option Leader
look now mine read_ok record' last =
    if read_ok
    then (look_at now mine record', cached record' last)
    else (answers (jeopardy now mine last), last)

-- Whether the server may write itself.
unfoldable pub may_lead : ℕ → Node → Option Leader → Bool
may_lead now mine none = true
may_lead now mine (some l) =
    same_address l.leader mine || is_leader_timeout now l.last_active leader_timeout

abbrev pub leader_of : Node → Option Leader → Node
leader_of mine none = mine
leader_of mine (some l) = l.leader

pub record Elected : Type 0 where
  pub answer : Option Node
  pub last : Option Leader
  pub stored : Option Leader

-- GetLeader from TryLock on: whether the lock, the second read and the write succeed.
unfoldable pub elect : ℕ → Node → Bool → Bool → Bool → Option Leader → Option Leader → Elected
elect now mine lock_ok read_ok write_ok stored last =
    if not lock_ok || not read_ok
    then record { answer = jeopardy now mine last; last = last; stored = stored }
    else if not (may_lead now mine stored)
    then record {
      answer = some (leader_of mine stored);
      last = cached stored last;
      stored = stored;
    }
    else if write_ok
    then record {
      answer = some mine;
      last = some (record { leader = mine; last_active = now });
      stored = some (record { leader = mine; last_active = now });
    }
    else record { answer = some mine; last = cached stored last; stored = stored }
