-- ===== src/Scheduler/Settled.antt =====
-- What each function of crates/scheduler/src/lib.rs leaves of a timer that was fired or cancelled.
use ai_harness.Base.{
  ℕ, true, some, String, List, [], ◌∷◌, ◌++◌, coalesce, ◌≡◌, refl, sym, subst, ◌≢◌, ◌⊎◌, inl, inr,
  ◌∙◌, arith, Option-cases, Bool-cases, ◌==◌,
}
use ai_harness.Base.Txn.{Result-cases}
use ai_harness.Base.Table.{put, find-put_ne, key-find}
use ai_harness.Base.Evolves.{find-append_old}
use ai_harness.Domain.TimerState.{TimerState, to_wire_injective}
use ai_harness.Store.Models.{TimerRow, TimerPatch}
use ai_harness.Store.Kernel.{KernelTxn}
use ai_harness.Store.Outbox.{stage}
use ai_harness.Store.Timers.{
  get_timer, timer_key, timer_row, insert_timer, timer_holds, timer_patched, cas_timer_cases,
}
use ai_harness.Scheduler.Timers.{
  ScheduleRequest, schedule, claim, cancel, mark_fired, claim_patch, cancel_patch, fired_patch,
  reclaim, consider, claim_first,
}
use ai_harness.Scheduler.Races.{written, claim_cases, cancel_cases, mark_fired_cases}

abbrev IsSettled : TimerRow → Type 0
IsSettled row = (row.state ≡ TimerState.fired) ⊎ (row.state ≡ TimerState.cancelled)

-- Settled timers of this identifier stay as they are.
abbrev pub Keeps : ℕ → KernelTxn → KernelTxn → Type 0
Keeps id a b =
    (row : TimerRow) → IsSettled row → get_timer id a ≡ some row → get_timer id b ≡ some row

pub the_some : (a b : TimerRow) → some a ≡ some b → a ≡ b
the_some a b h = cc

pub clash :
    (row : TimerRow)
    → IsSettled row
    → (row.state ≡ TimerState.scheduled) ⊎ (row.state ≡ TimerState.claimed)
    → ⊥
clash row settled busy = ground arith

written-Keeps :
    (id k : ℕ) (patch : TimerPatch) (row : TimerRow) (a b : KernelTxn)
    → get_timer k a ≡ some row
    → (row.state ≡ TimerState.scheduled) ⊎ (row.state ≡ TimerState.claimed)
    → b.timers ≡ put timer_key (timer_patched patch row) a.timers
    → Keeps id a b
unfolding timer_patched
written-Keeps id k patch row a b found busy after old settled there = elim (Bool-cases (k == id)) [
  | inl same ↦
      let same' : k ≡ id = ground arith in
      let one : row ≡ old = the_some row old (cc (found, there, same')) in
      absurd (clash row (subst IsSettled (sym one) settled) busy)
  | inr differs ↦
      let of_k = key-find timer_key k a.timers {x = row} found in
      let other : row.timer_id ≢ id = λ e. ground (arith, e, of_k, differs) in
      rw after (find-put_ne timer_key id (timer_patched patch row) a.timers other ∙ there)
]

pub claim-Keeps :
    (id k : ℕ) (owner : String) (epoch : ℕ) (txn : KernelTxn)
    → Keeps id txn (claim k owner epoch txn).1
unfolding stage
claim-Keeps id k owner epoch txn = elim (claim_cases k owner epoch txn) [
  | inl (e, refused) ↦ rw refused (λ row settled there. there)
  | inr (inl lost) ↦ rw lost (λ row settled there. there)
  | inr (inr (row, found, state, done)) ↦ rw done (
      written-Keeps id k (claim_patch row owner epoch) row txn
        (written (claim_patch row owner epoch) row txn) found (inl state) refl)
]

pub cancel-Keeps : (id k version : ℕ) (txn : KernelTxn) → Keeps id txn (cancel k version txn).1
unfolding stage
cancel-Keeps id k version txn = elim (cancel_cases k version txn) [
  | inl (e, refused) ↦ rw refused (λ row settled there. there)
  | inr (inl (row, found, state, again)) ↦ rw again (λ old settled there. there)
  | inr (inr (row, found, state, done)) ↦ rw done (
      written-Keeps id k cancel_patch row txn (written cancel_patch row txn) found (inl state) refl)
]

pub holds_state :
    (state : TimerState) (version : ℕ) (row : TimerRow)
    → timer_holds state version row ≡ true
    → (row.state ≡ state) × (row.version ≡ version)
unfolding timer_holds
holds_state state version row h =
    (to_wire_injective row.state state (ground (arith, h)), ground (arith, h))

pub fired-Keeps : (id : ℕ) (c : TimerRow) (txn : KernelTxn) → Keeps id txn (mark_fired c txn).1
unfolding stage
fired-Keeps id c txn = elim (mark_fired_cases c txn) [
  | inl wide ↦ rw wide (λ row settled there. there)
  | inr (inl lost) ↦ rw lost (λ row settled there. there)
  | inr (inr (row, found, holds, done)) ↦ rw done (
      written-Keeps id c.timer_id fired_patch row txn (written fired_patch row txn) found
        (inr (holds_state TimerState.claimed c.version row holds).0) refl)
]

keep_eq : (id : ℕ) (a b : KernelTxn) → b ≡ a → Keeps id a b
keep_eq id a b same row settled there = rw same there

reclaim-Keeps :
    (id : ℕ) (row : TimerRow) (owner : String) (epoch : ℕ) (txn : KernelTxn)
    → Keeps id txn (reclaim row owner epoch txn).1
reclaim-Keeps id row owner epoch txn =
    elim (cas_timer_cases row.timer_id TimerState.claimed row.version (claim_patch row owner epoch)
      txn) [
        | inl wide ↦ keep_eq id txn (reclaim row owner epoch txn).1 (ground (arith, wide))
        | inr (inl lost) ↦ keep_eq id txn (reclaim row owner epoch txn).1 (ground (arith, lost))
        | inr (inr (old, found, holds, done)) ↦
            written-Keeps id row.timer_id (claim_patch row owner epoch) old txn
              (reclaim row owner epoch txn).1 found
              (inr (holds_state TimerState.claimed row.version old holds).0) (ground (arith, done))
      ]

consider_cases :
    (row : TimerRow) (owner : String) (epoch : ℕ) (exclude : List ℕ) (txn : KernelTxn)
    → ((consider row owner epoch exclude txn).1 ≡ txn)
      ⊎ ((consider row owner epoch exclude txn).1 ≡ (reclaim row owner epoch txn).1)
      ⊎ ((consider row owner epoch exclude txn).1 ≡ (claim row.timer_id owner epoch txn).1)
consider_cases row owner epoch exclude txn = ground arith

claim_first_step :
    (r : TimerRow) (rows : List TimerRow) (owner : String) (epoch : ℕ) (exclude : List ℕ)
    (txn : KernelTxn)
    → let b = (consider r owner epoch exclude txn).1 in
      ((claim_first (r ∷ rows) owner epoch exclude txn).1 ≡ b)
      ⊎ ((claim_first (r ∷ rows) owner epoch exclude txn).1
          ≡ (claim_first rows owner epoch exclude b).1)
unfolding claim_first
claim_first_step r rows owner epoch exclude txn =
    elim (Result-cases (consider r owner epoch exclude txn).0) [
      | inr (e, failed) ↦ inl (cc failed)
      | inl (found, done) ↦ elim (Option-cases found) [
        | inl nothing ↦ inr (cc (done, nothing))
        | inr (row, one) ↦ inl (cc (done, one))
      ]
    ]

consider-Keeps :
    (id : ℕ) (r : TimerRow) (owner : String) (epoch : ℕ) (exclude : List ℕ) (txn : KernelTxn)
    → Keeps id txn (consider r owner epoch exclude txn).1
consider-Keeps id r owner epoch exclude txn = elim (consider_cases r owner epoch exclude txn) [
  | inl same ↦ keep_eq id txn (consider r owner epoch exclude txn).1 same
  | inr (inl e) ↦ subst (Keeps id txn) (sym e) (reclaim-Keeps id r owner epoch txn)
  | inr (inr e) ↦ subst (Keeps id txn) (sym e) (claim-Keeps id r.timer_id owner epoch txn)
]

pub claim_first-Keeps :
    (id : ℕ) (rows : List TimerRow) (owner : String) (epoch : ℕ) (exclude : List ℕ)
    (txn : KernelTxn)
    → Keeps id txn (claim_first rows owner epoch exclude txn).1
unfolding claim_first
claim_first-Keeps id [] owner epoch exclude txn = λ row settled there. there
claim_first-Keeps id (r ∷ rows) owner epoch exclude txn =
    let b = (consider r owner epoch exclude txn).1 in
    let one = consider-Keeps id r owner epoch exclude txn in
    elim (claim_first_step r rows owner epoch exclude txn) [
      | inl e ↦ subst (Keeps id txn) (sym e) one
      | inr e ↦ subst (Keeps id txn) (sym e) (λ row settled there.
          claim_first-Keeps id rows owner epoch exclude b row settled (one row settled there))
    ]

-- A scheduling leaves the table as it was, or adds one row behind the others.
schedule_cases :
    (now minted : ℕ) (request : ScheduleRequest) (txn : KernelTxn)
    → ((schedule now minted request txn).1.timers ≡ txn.timers)
      ⊎ ((row : TimerRow) × ((schedule now minted request txn).1.timers ≡ txn.timers ++ row ∷ []))
unfolding schedule insert_timer stage
schedule_cases now minted request txn =
    let id = coalesce request.timer_id minted in
    elim (Option-cases (get_timer id txn)) [
      | inr (existing, there) ↦ inl (ground (arith, there))
      | inl fresh ↦
          let row = timer_row (record {
            timer_id = id;
            run_id = request.run_id;
            timer_kind = request.timer_kind;
            payload = request.payload;
            due_at_ms = request.due_at_ms;
            state = TimerState.scheduled;
            version = 0;
            created_at_ms = now;
          }) in
          inr (row, ground (arith, fresh))
    ]

pub schedule-Keeps :
    (id now minted : ℕ) (request : ScheduleRequest) (txn : KernelTxn)
    → Keeps id txn (schedule now minted request txn).1
schedule-Keeps id now minted request txn old settled there =
    elim (schedule_cases now minted request txn) [
      | inl same ↦ rw same there
      | inr (row, added) ↦ rw added (find-append_old timer_key id txn.timers row {x = old} there)
    ]
