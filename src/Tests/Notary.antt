-- ===== src/Tests/Notary.antt =====
-- Two of three signers anchor a root, and the admin revokes it.
use proofbridge_contracts.Base.{
  ◌+◌, ◌^◌, ◌≤◌, ◌<◌, ◌≡◌, ◌↔◌, refl, true, false, some, ok, List, [], ◌∷◌, lookup, nat_eq, pair_eq,
  triple_eq, Env,
}
use proofbridge_contracts.RootAnchor.State.{State, fresh, anchor_or_none, get_delay, get_latest_seq}
use proofbridge_contracts.RootAnchor.Admin.{initialize, revoke_anchor}
use proofbridge_contracts.RootAnchor.Notary.{
  anchor, is_anchored, carry_over, name_seq, approve, reach_threshold, anchor_pending,
}
use proofbridge_contracts.RootAnchor.Histories.{Call, initializes, anchors, step, run}
use proofbridge_contracts.RootAnchor.Approvals.{approvers}
use proofbridge_contracts.RootAnchor.Quorum.{
  anchored_quorum, revoke_resets, is_anchored_iff, anchored_seq_rises,
}
use proofbridge_contracts.RootAnchor.Authorization.{approval_authorized}
use proofbridge_contracts.Tests.Platform.{host, at}

abbrev half_way : List (Env × Call)
half_way = (at 10, initializes 1 (11 ∷ 12 ∷ 13 ∷ []) 2) ∷ (at 20, anchors 11 5 77 300) ∷ []

-- One approval of root 77 of chain 5 at ledger 300.
abbrev waiting : State
waiting = record fresh {
  initialized = true;
  admin = some 1;
  signers = 11 ∷ 12 ∷ 13 ∷ [];
  threshold = 2;
  set_epoch = 1;
  anchors =
      (
        (5, 77),
        record {
          ledger_seq = 300;
          anchored = false;
          anchored_at = 0;
          approvals = 1;
          set_epoch = 1;
          gen = 0;
        },
      )
      ∷ [];
  stamps = ((5, 77, 11), 2 ^ 32) ∷ [];
}

half_way-waiting : run host half_way fresh ≡ waiting
unfolding run step initialize anchor anchor_pending name_seq carry_over approve reach_threshold
half_way-waiting = refl

abbrev notarized : State
notarized = record waiting {
  latest = (5, 300) ∷ [];
  anchors =
      (
        (5, 77),
        record {
          ledger_seq = 300;
          anchored = true;
          anchored_at = 30;
          approvals = 2;
          set_epoch = 1;
          gen = 0;
        },
      )
      ∷ [];
  stamps = ((5, 77, 11), 2 ^ 32) ∷ ((5, 77, 12), 2 ^ 32) ∷ [];
}

second_approval : anchor (at 30) 12 5 77 300 waiting ≡ ok (tt, notarized)
unfolding anchor anchor_pending name_seq carry_over approve reach_threshold
second_approval = refl

anchored_quorum_example : 2 ≤ approvers notarized 5 77 (anchor_or_none 5 77 notarized)
anchored_quorum_example =
    (anchored_quorum host half_way (at 30) 12 5 77 300 waiting notarized half_way-waiting
      second_approval refl refl).0

anchored_seq_rises_example : get_latest_seq 5 waiting < get_latest_seq 5 notarized
anchored_seq_rises_example =
    (anchored_seq_rises (at 30) 12 5 77 300 6 waiting notarized refl second_approval refl refl).0

is_anchored_iff_example :
    (is_anchored (at 31) notarized 5 77 ≡ true)
    ↔ ((anchor_or_none 5 77 notarized).anchored ≡ true)
      × ((anchor_or_none 5 77 notarized).anchored_at + get_delay 5 notarized ≤ 31)
is_anchored_iff_example = is_anchored_iff (at 31) notarized 5 77

abbrev whole : List (Env × Call)
whole =
    (at 10, initializes 1 (11 ∷ 12 ∷ 13 ∷ []) 2)
    ∷ (at 20, anchors 11 5 77 300)
    ∷ (at 30, anchors 12 5 77 300)
    ∷ []

whole-notarized : run host whole fresh ≡ notarized
unfolding run step initialize anchor anchor_pending name_seq carry_over approve reach_threshold
whole-notarized = refl

abbrev withdrawn : State
withdrawn = record notarized {
  anchors =
      (
        (5, 77),
        record {
          ledger_seq = 0;
          anchored = false;
          anchored_at = 0;
          approvals = 0;
          set_epoch = 1;
          gen = 1;
        },
      )
      ∷ [];
}

revoke_resets_example : is_anchored (at 50) withdrawn 5 77 ≡ false
unfolding revoke_anchor
revoke_resets_example =
    (revoke_resets host whole (at 40) (at 50) 5 77 notarized withdrawn whole-notarized refl).0

-- Only signer 12 has authorized the call.
abbrev only_twelve : Env
only_twelve = record {
  timestamp = 30;
  current_contract = 99;
  authorized = λ who. nat_eq.same who 12;
}

approval_authorized_example :
    lookup (5, 77, 11) (step host only_twelve (anchors 12 5 77 300) waiting).stamps
    ≡ lookup (5, 77, 11) waiting.stamps
approval_authorized_example =
    approval_authorized host only_twelve (anchors 12 5 77 300) 5 77 11 waiting refl
