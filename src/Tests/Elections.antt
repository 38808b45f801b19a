-- ===== src/Tests/Elections.antt =====
-- The first election, of src/meta/zp_meta_election.cc.
use zeppelin.Base.{◌≡◌, refl, true, none, some, arith}
use zeppelin.Meta.Data.{Node}
use zeppelin.Meta.Election.{Elected, elect, may_lead}
use zeppelin.Meta.Election.Safety.{Cluster, starts, elects, Names, Step-leader}

abbrev mine : Node
mine = record { ip = "m"; port = 1 }

abbrev first : Cluster
first = record { clock = 0; stored = none; last = λ n. none }

abbrev won : Elected
won = record {
  answer = some mine;
  last = some (record { leader = mine; last_active = 5 });
  stored = some (record { leader = mine; last_active = 5 });
}

elect_first : elect 5 mine true true true none none ≡ won
unfolding elect may_lead
elect_first = refl

Step-leader_example : Names mine won.stored
Step-leader_example = Step-leader starts (elects 5 mine true true won (omega arith) elect_first)
