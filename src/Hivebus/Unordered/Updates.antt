-- ===== src/Hivebus/Unordered/Updates.antt =====
-- No update of the table of crates/hivebus/src/main.rs depends on the order of its entries.
use hivebus.Prelude.{
  ℕ, ◌≡◌, refl, sym, ap, ◌∙◌, inl, inr, Option, none, some, List, [], ◌∷◌, arith, nat_eq, ◌==◌,
  if◌then◌else◌, Bool-cases, Option-cases, take, drop,
}
use hivebus.Result.{Result-cases}
use hivebus.Std.HashMap
use hivebus.Std.HashMap.{get-insert, get-values_mut, get-retain}
use hivebus.Std.Net.{SocketAddr}
use hivebus.Std.Time.{SystemTime, Duration}
use hivebus.Proto.Frame.{
  MsgType, heartbeat, announce, leave, ack, gossip, vote_request, vote_grant, FrameHeader,
  from_bytes, msg_type, node_id,
}
use hivebus.Proto.Node.{NodeInfo}
use hivebus.Proto.Payload.{HeartbeatPayload, AnnouncePayload, GossipEntry}
use hivebus.Hivebus.Members.{Members, master_from, IsValid}
use hivebus.Hivebus.Members.Master.{IsCandidate, master_from_agree}
use hivebus.Hivebus.Listener.{
  Codecs, Warning, on_heartbeat, on_announce, on_leave, merge_entry, on_gossip, on_message,
  on_frame, on_datagram, announced, duplicate,
}
use hivebus.Hivebus.Listener.Peers.{get-on_heartbeat, get-on_leave, get-merge_entry}
use hivebus.Hivebus.Detector.{is_recent, judge, flag, survivors, detect}
use hivebus.Hivebus.Detector.Verdict.{survivors-IsValid}
use hivebus.Hivebus.Unordered.{SameEntries}

module _ (m m' : Members) (same : SameEntries m m') where
  on_heartbeat-SameEntries :
      (now : SystemTime) (from : SocketAddr) (nid : ℕ) (pl : HeartbeatPayload)
      → SameEntries (on_heartbeat now from nid pl m) (on_heartbeat now from nid pl m')
  on_heartbeat-SameEntries now from nid pl k =
      get-on_heartbeat now from nid pl m k
      ∙ (rw (same nid, same k) (sym (get-on_heartbeat now from nid pl m' k)))

  on_leave-SameEntries : (nid : ℕ) → SameEntries (on_leave nid m) (on_leave nid m')
  on_leave-SameEntries nid k =
      get-on_leave nid m k ∙ (rw (same nid, same k) (sym (get-on_leave nid m' k)))

  insert-SameEntries :
      (nid : ℕ) (n : NodeInfo) → SameEntries (HashMap.insert m nid n) (HashMap.insert m' nid n)
  insert-SameEntries nid n k = get-insert m nid k n ∙ (rw (same k) (sym (get-insert m' nid k n)))

  merge_entry-SameEntries :
      (self_id : ℕ) (now : SystemTime) (from : SocketAddr) (entry : GossipEntry)
      → SameEntries (merge_entry self_id now from m entry) (merge_entry self_id now from m' entry)
  merge_entry-SameEntries self_id now from entry k =
      get-merge_entry self_id now from m entry k
      ∙ (rw (same entry.node_id, same k) (sym (get-merge_entry self_id now from m' entry k)))

on_gossip-SameEntries :
    (self_id : ℕ) (now : SystemTime) (from : SocketAddr) (entries : List GossipEntry)
    (m m' : Members)
    → SameEntries m m'
    → SameEntries (on_gossip self_id now from entries m) (on_gossip self_id now from entries m')
unfolding on_gossip
on_gossip-SameEntries self_id now from [] m m' same = same
on_gossip-SameEntries self_id now from (entry ∷ entries) m m' same =
    on_gossip-SameEntries self_id now from entries _ _
      (merge_entry-SameEntries m m' same self_id now from entry)

-- The same entries and the same warnings.
abbrev pub SameEffect : Members × List Warning → Members × List Warning → Type 0
SameEffect p q = SameEntries p.0 q.0 × (p.1 ≡ q.1)

module _ (codecs : Codecs) (self_id : ℕ) (now : SystemTime) (from : SocketAddr) (m m' : Members)
    (same : SameEntries m m') where
  on_announce-SameEffect :
      (nid : ℕ) (pl : AnnouncePayload)
      → SameEffect (on_announce now nid pl m) (on_announce now nid pl m')
  unfolding on_announce
  on_announce-SameEffect nid pl =
      (insert-SameEntries m m' same nid (announced now nid pl), ap (duplicate nid pl) (same nid))

  on_message-SameEffect :
      (t : MsgType) (nid : ℕ) (bytes : List ℕ)
      → SameEffect
          (on_message codecs self_id now from t nid bytes m)
          (on_message codecs self_id now from t nid bytes m')
  unfolding on_message
  on_message-SameEffect heartbeat nid bytes = elim (Result-cases (codecs.heartbeat.decode bytes)) [
    | inl (e, p) ↦ rw (p, on_message) (same, refl)
    | inr ((pl, _), p) ↦
        rw (p, on_message) (on_heartbeat-SameEntries m m' same now from nid pl, refl)
  ]
  on_message-SameEffect announce nid bytes = elim (Result-cases (codecs.announce.decode bytes)) [
    | inl (e, p) ↦ rw (p, on_message) (same, refl)
    | inr ((pl, _), p) ↦ rw (p, on_message) (on_announce-SameEffect nid pl)
  ]
  on_message-SameEffect leave nid bytes = elim (Result-cases (codecs.leave.decode bytes)) [
    | inl (e, p) ↦ rw (p, on_message) (same, refl)
    | inr (_, p) ↦ rw (p, on_message) (on_leave-SameEntries m m' same nid, refl)
  ]
  on_message-SameEffect gossip nid bytes = elim (Result-cases (codecs.gossip.decode bytes)) [
    | inl (e, p) ↦ rw (p, on_message) (same, refl)
    | inr ((pl, _), p) ↦
        rw (p, on_message) (on_gossip-SameEntries self_id now from pl.entries m m' same, refl)
  ]
  on_message-SameEffect vote_request nid bytes = (same, refl)
  on_message-SameEffect vote_grant nid bytes = (same, refl)
  on_message-SameEffect ack nid bytes = (same, refl)

  on_frame-SameEffect :
      (header : FrameHeader) (bytes : List ℕ)
      → SameEffect
          (on_frame codecs self_id now from header bytes m)
          (on_frame codecs self_id now from header bytes m')
  unfolding on_frame
  on_frame-SameEffect header bytes = elim (Bool-cases (node_id header == self_id)) [
    | inl own ↦ rw (on_frame, own) (same, refl)
    | inr other ↦ elim (Option-cases (msg_type header)) [
      | inl p ↦ rw (on_frame, other, p) (same, refl)
      | inr (t, p) ↦ rw (on_frame, other, p) (on_message-SameEffect t (node_id header) bytes)
    ]
  ]

  pub on_datagram-SameEffect :
      (datagram : List ℕ)
      → SameEffect
          (on_datagram codecs self_id now from datagram m)
          (on_datagram codecs self_id now from datagram m')
  unfolding on_datagram
  on_datagram-SameEffect datagram = elim (Option-cases (from_bytes (take 576 datagram))) [
    | inl p ↦ rw (p, on_datagram) (same, refl)
    | inr (h, p) ↦ rw (p, on_datagram) (on_frame-SameEffect h (drop 4 (take 576 datagram)))
  ]

candidates_same :
    (self_id : ℕ) (m m' : Members) (k : ℕ)
    → SameEntries m m'
    → IsCandidate self_id m k
    → IsCandidate self_id m' k
candidates_same self_id m m' k same (inl own) = inl own
candidates_same self_id m m' k same (inr (n, found, up)) = inr (n, sym (same k) ∙ found, up)

pub master_from-SameEntries :
    (self_id : ℕ) (m m' : Members)
    → SameEntries m m'
    → IsValid self_id m
    → IsValid self_id m'
    → master_from m self_id ≡ master_from m' self_id
master_from-SameEntries self_id m m' same v v' =
    master_from_agree self_id self_id m m' v v' (λ k. candidates_same self_id m m' k same)
      (λ k. candidates_same self_id m' m k (λ j. sym (same j)))

module _ (s d : Duration) (now : SystemTime) where
  abbrev survivor : Option NodeInfo → Option NodeInfo
  survivor none = none
  survivor (some n) = if is_recent now n then some (judge s d now n) else none

  get-survivors :
      (m : Members) (k : ℕ)
      → HashMap.IsDistinct m
      → HashMap.get (survivors s d now m) k ≡ survivor (HashMap.get m k)
  unfolding survivors
  get-survivors m k distinct = ground (
    arith,
    get-values_mut (judge s d now) (HashMap.retain (is_recent now) m) k,
    get-retain (is_recent now) m k distinct,
  )

  abbrev flagged : Option ℕ → Option NodeInfo → Option NodeInfo
  flagged master none = none
  flagged master (some n) = some (flag master n)

  get-detect :
      (self_id : ℕ) (m : Members) (k : ℕ)
      → HashMap.get (detect self_id s d now m) k
        ≡ flagged (master_from (survivors s d now m) self_id) (HashMap.get (survivors s d now m) k)
  unfolding detect
  get-detect self_id m k =
      get-values_mut (flag (master_from (survivors s d now m) self_id)) (survivors s d now m) k

  survivors-SameEntries :
      (m m' : Members)
      → SameEntries m m'
      → HashMap.IsDistinct m
      → HashMap.IsDistinct m'
      → SameEntries (survivors s d now m) (survivors s d now m')
  survivors-SameEntries m m' same distinct distinct' k =
      get-survivors m k distinct ∙ (ap survivor (same k) ∙ sym (get-survivors m' k distinct'))

  pub detect-SameEntries :
      (self_id : ℕ) (m m' : Members)
      → SameEntries m m'
      → IsValid self_id m
      → IsValid self_id m'
      → SameEntries (detect self_id s d now m) (detect self_id s d now m')
  detect-SameEntries self_id m m' same v v' k =
      let left = survivors s d now m in
      let right = survivors s d now m' in
      let kept = survivors-SameEntries m m' same v.distinct v'.distinct in
      let elected =
        master_from-SameEntries self_id left right kept (survivors-IsValid self_id s d now m v)
          (survivors-IsValid self_id s d now m' v') in
      get-detect self_id m k
      ∙ (ap (flagged (master_from left self_id)) (kept k)
          ∙ (ap (λ (o : Option ℕ). flagged o (HashMap.get right k)) elected
              ∙ sym (get-detect self_id m' k)))
