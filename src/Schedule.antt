-- ===== src/Schedule.antt =====
-- The order in which candidates are probed: schedule_active_candidates, SourceCandidateQueue and
-- source_fair_candidates of probe.rs. `queues[queue_index]` out of range is a panic, `none`.
pub mod Queues
pub mod Appended
pub mod Distribute
pub mod Sorted
pub mod Rounds
pub mod Complete
pub mod Order
pub mod Fair
use v2ray_subscription_manag.Prelude.{
  ℕ, zero, suc, ◌+◌, Bool, true, false, not, ◌&&◌, String, List, [], ◌∷◌, ◌++◌, map, Option, none,
  some, Ordering, compare, contains, length, leb, ltb, ◌==◌, if◌then◌else◌, str_eq,
}
use v2ray_subscription_manag.Prelude.Order.{◌then◌, compare_text}
use v2ray_subscription_manag.Prelude.Sort.{sort_by}
use v2ray_subscription_manag.Model.{Candidate, ProbeStopPolicy}
use v2ray_subscription_manag.Stop.{is_empty}

pub record SourceCandidateQueue : Type 0 where
  pub source : String
  pub priority : ℕ
  pub first_index : ℕ
  pub preferred : List Candidate
  pub regular : List Candidate

-- `SourceCandidateQueue::pop_front`: the candidate, and the queue that is left.
unfoldable pub pop_lists :
    SourceCandidateQueue → List Candidate → List Candidate → Option Candidate × SourceCandidateQueue
pop_lists queue (candidate ∷ preferred) regular =
    (some candidate, record queue { preferred = preferred; regular = regular })
pop_lists queue [] (candidate ∷ regular) =
    (some candidate, record queue { preferred = []; regular = regular })
pop_lists queue [] [] = (none, record queue { preferred = []; regular = [] })

unfoldable pub pop_front : SourceCandidateQueue → Option Candidate × SourceCandidateQueue
unfolding pop_lists
pop_front queue = pop_lists queue queue.preferred queue.regular

-- The key of `queue_indexes`.
pub record QueueKey : Type 0 where
  pub source : String
  pub priority : ℕ

unfoldable pub same_key : QueueKey → QueueKey → Bool
same_key a b = str_eq a.source b.source && a.priority == b.priority

unfoldable pub find_index : QueueKey → List (QueueKey × ℕ) → Option ℕ
unfolding same_key
find_index key [] = none
find_index key ((other, index) ∷ rest) =
    if same_key other key then some index else find_index key rest

-- The two `push_back`s at the end of the loop's body.
unfoldable pub push_queue : Bool → Candidate → SourceCandidateQueue → SourceCandidateQueue
push_queue preferred candidate queue =
    if preferred
    then record queue { preferred = queue.preferred ++ candidate ∷ [] }
    else record queue { regular = queue.regular ++ candidate ∷ [] }

unfoldable pub push_at :
    Bool → Candidate → ℕ → List SourceCandidateQueue → Option (List SourceCandidateQueue)
unfolding push_queue
push_at preferred candidate index [] = none
push_at preferred candidate zero (queue ∷ queues) =
    some (push_queue preferred candidate queue ∷ queues)
push_at preferred candidate (suc index) (queue ∷ queues) =
    elim (push_at preferred candidate index queues) [
      | none ↦ none
      | some queues' ↦ some (queue ∷ queues')
    ]

pub record Distribution : Type 0 where
  pub queues : List SourceCandidateQueue
  pub queue_indexes : List (QueueKey × ℕ)

abbrev pub empty_queue : Candidate → ℕ → SourceCandidateQueue
empty_queue candidate index = record {
  source = candidate.source;
  priority = candidate.priority;
  first_index = index;
  preferred = [];
  regular = [];
}

-- The loop that hands each candidate to the queue of its source.
unfoldable pub distribute :
    (Candidate → Bool) → ℕ → List Candidate → Distribution → Option Distribution
unfolding find_index push_at
distribute is_preferred index [] d = some d
distribute is_preferred index (candidate ∷ rest) d =
    let key : QueueKey = record { source = candidate.source; priority = candidate.priority } in
    let preferred = is_preferred candidate in
    elim (find_index key d.queue_indexes) [
      | some queue_index ↦ elim (push_at preferred candidate queue_index d.queues) [
        | none ↦ none
        | some queues ↦ distribute is_preferred (index + 1) rest (record d { queues = queues })
      ]
      | none ↦
          elim (push_at preferred candidate (length d.queues)
            (d.queues ++ empty_queue candidate index ∷ [])) [
              | none ↦ none
              | some queues ↦ distribute is_preferred (index + 1) rest (record {
                queues = queues;
                queue_indexes = (key, length d.queues) ∷ d.queue_indexes;
              })
            ]
    ]

unfoldable pub compare_queues : SourceCandidateQueue → SourceCandidateQueue → Ordering
compare_queues left right =
    compare left.priority right.priority
    then compare left.first_index right.first_index
    then compare_text left.source right.source

-- `for queue in &mut queues`: the queues that are left, and the candidates that were taken.
unfoldable pub round : List SourceCandidateQueue → List SourceCandidateQueue × List Candidate
unfolding pop_front
round [] = ([], [])
round (queue ∷ queues) =
    let (candidate, queue') = pop_front queue in
    let (queues', taken) = round queues in
    (queue' ∷ queues', elim candidate [ none ↦ taken | some c ↦ c ∷ taken ])

-- `while scheduled.len() < candidate_count`. `none`: the fuel ran out.
unfoldable pub rounds : ℕ → ℕ → List SourceCandidateQueue → List Candidate → Option (List Candidate)
unfolding round
rounds zero candidate_count queues scheduled =
    if ltb (length scheduled) candidate_count then none else some scheduled
rounds (suc fuel) candidate_count queues scheduled =
    let (queues', taken) = round queues in
    let more = rounds fuel candidate_count queues' (scheduled ++ taken) in
    if ltb (length scheduled) candidate_count then more else some scheduled

-- A round takes at least one candidate while any is left, so as many rounds as candidates do.
unfoldable pub source_fair_candidates :
    List Candidate → (Candidate → Bool) → Option (List Candidate)
unfolding distribute rounds sort_by compare_queues
source_fair_candidates candidates is_preferred =
    let scheduled : Option (List Candidate) =
      elim (distribute is_preferred 0 candidates (record { queues = []; queue_indexes = [] })) [
        | none ↦ none
        | some d ↦
            rounds (length candidates) (length candidates) (sort_by compare_queues d.queues) []
      ] in
    if leb (length candidates) 1 then some candidates else scheduled

unfoldable pub schedule_active_candidates :
    List Candidate → ProbeStopPolicy → Option (List Candidate)
unfolding source_fair_candidates
schedule_active_candidates candidates stop_policy =
    let has_previous =
      stop_policy.prioritize_stability && not (is_empty stop_policy.previous_working_keys) in
    let scheduled = source_fair_candidates candidates (λ candidate.
      has_previous && contains stop_policy.previous_working_keys candidate.dedup_key) in
    if leb (length candidates) 1 then some candidates else scheduled
