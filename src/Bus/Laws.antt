-- ===== src/Bus/Laws.antt =====
-- What the bus promises its subscribers.
use fleet_core.Prelude.{
  ℕ, ◌+◌, ◌≤◌, ◌<◌, String, ◌≡◌, refl, ◌≢◌, inl, inr, false, some, List, [], ◌∷◌, map, arith,
  if◌then◌else◌, Bool-cases, All, ◌=s=◌, eq_iff, eq_refl,
}
use fleet_core.GoMap.{get}
use fleet_core.GoMap.Laws.{get-put, get-delete}
use fleet_core.Bus.{Chan, InProc, subscribers, offer, publish, subscribe, drop_chan, cancel}

pub subscribers-publish :
    (topic t : String) (b : InProc)
    → subscribers t (publish topic b)
      ≡ (if topic =s= t then map offer (subscribers t b) else subscribers t b)
unfolding publish
subscribers-publish topic t b =
    ground (arith, get-put topic t (map offer (subscribers topic b)) b.subs, eq_iff topic t)

pub subscribers-subscribe :
    (topic t : String) (b : InProc)
    → subscribers t (subscribe topic b).1 ≡ (
        if topic =s= t
        then record { id = b.next; pending = 0 } ∷ subscribers t b
        else subscribers t b)
unfolding subscribe
subscribers-subscribe topic t b = ground (
  arith,
  get-put topic t (record { id = b.next; pending = 0 } ∷ subscribers topic b) b.subs,
  eq_iff topic t,
)

pub subscribers-cancel :
    (topic t : String) (id : ℕ) (b : InProc)
    → subscribers t (cancel topic id b)
      ≡ (if topic =s= t then drop_chan id (subscribers t b) else subscribers t b)
unfolding cancel
subscribers-cancel topic t id b = ground (
  arith,
  get-put topic t (drop_chan id (subscribers topic b)) b.subs,
  get-delete topic t b.subs,
  eq_iff topic t,
)

-- A signal waits in the channel.
abbrev pub IsWoken : Chan → Type 0
IsWoken ch = 0 < ch.pending

offer-IsWoken : (chs : List Chan) → All IsWoken (map offer chs)
unfolding offer
offer-IsWoken [] = tt
offer-IsWoken (ch ∷ chs) = (ground arith, offer-IsWoken chs)

-- After a publish every subscriber of the topic has a signal waiting, whether or not one was
-- waiting before, and the subscribers of another topic are as they were.
pub publish_wakes :
    (topic : String) (b : InProc)
    → All IsWoken (subscribers topic (publish topic b))
      × ((t : String) → (topic =s= t) ≡ false → subscribers t (publish topic b) ≡ subscribers t b)
publish_wakes topic b = (
  rw (subscribers-publish, eq_refl) (offer-IsWoken (subscribers topic b)),
  λ t h. rw (subscribers-publish, h),
)

-- No channel holds more than its one signal, and each channel was handed out by `Subscribe`.
abbrev IsChan : ℕ → Chan → Type 0
IsChan next ch = (ch.pending ≤ 1) × (ch.id < next)

-- Also, no topic is left without subscribers, so the map does not grow with topics that are over.
pub record IsValid (b : InProc) : Type 0 where
  pub chans : (t : String) → All (IsChan b.next) (subscribers t b)
  pub occupied : (t : String) → get t b.subs ≢ some []

offer-IsChan : (n : ℕ) (chs : List Chan) → All (IsChan n) chs → All (IsChan n) (map offer chs)
unfolding offer
offer-IsChan n [] h = tt
offer-IsChan n (ch ∷ chs) h = (ground arith, offer-IsChan n chs h.1)

IsChan-suc : (n : ℕ) (chs : List Chan) → All (IsChan n) chs → All (IsChan (n + 1)) chs
IsChan-suc n [] h = tt
IsChan-suc n (ch ∷ chs) h = (omega arith, IsChan-suc n chs h.1)

IsChan-drop : (n id : ℕ) (chs : List Chan) → All (IsChan n) chs → All (IsChan n) (drop_chan id chs)
IsChan-drop n id [] h = tt
IsChan-drop n id (ch ∷ chs) h = ground (arith, IsChan-drop n id chs h.1)

next-publish : (topic : String) (b : InProc) → (publish topic b).next ≡ b.next
unfolding publish
next-publish topic b = ground arith

next-cancel : (topic : String) (id : ℕ) (b : InProc) → (cancel topic id b).next ≡ b.next
unfolding cancel
next-cancel topic id b = ground arith

map-offer-nil : (chs : List Chan) → map offer chs ≡ [] → chs ≡ []
map-offer-nil [] h = refl
map-offer-nil (ch ∷ chs) h = cc

abbrev IsOccupied : InProc → String → Type 0
IsOccupied b t = get t b.subs ≢ some []

publish-IsOccupied :
    (topic t : String) (b : InProc)
    → IsOccupied b topic
    → IsOccupied b t
    → IsOccupied (publish topic b) t
unfolding publish
publish-IsOccupied topic t b h k = ground (
  arith,
  h,
  k,
  get-put topic t (map offer (subscribers topic b)) b.subs,
  map-offer-nil (subscribers topic b),
)

cancel-IsOccupied :
    (topic t : String) (id : ℕ) (b : InProc) → IsOccupied b t → IsOccupied (cancel topic id b) t
unfolding cancel
cancel-IsOccupied topic t id b h = ground (
  arith,
  h,
  get-put topic t (drop_chan id (subscribers topic b)) b.subs,
  get-delete topic t b.subs,
)

subscribe-IsOccupied :
    (topic t : String) (b : InProc) → IsOccupied b t → IsOccupied (subscribe topic b).1 t
unfolding subscribe
subscribe-IsOccupied topic t b h =
    ground
      (arith, h, get-put topic t (record { id = b.next; pending = 0 } ∷ subscribers topic b) b.subs)

next-subscribe : (topic : String) (b : InProc) → (subscribe topic b).1.next ≡ b.next + 1
unfolding subscribe
next-subscribe topic b = refl

publish-IsValid : (topic : String) {b : InProc} → IsValid b → IsValid (publish topic b)
publish-IsValid topic {b} v = record {
  chans = λ t.
      rw (subscribers-publish, next-publish)
        (elim (Bool-cases (topic =s= t)) [
          | inl e ↦ rw e (offer-IsChan b.next (subscribers t b) (v.chans t))
          | inr e ↦ rw e (v.chans t)
        ]);
  occupied = λ t. publish-IsOccupied topic t b (v.occupied topic) (v.occupied t);
}

cancel-IsValid : (topic : String) (id : ℕ) {b : InProc} → IsValid b → IsValid (cancel topic id b)
cancel-IsValid topic id {b} v = record {
  chans = λ t.
      rw (subscribers-cancel, next-cancel)
        (elim (Bool-cases (topic =s= t)) [
          | inl e ↦ rw e (IsChan-drop b.next id (subscribers t b) (v.chans t))
          | inr e ↦ rw e (v.chans t)
        ]);
  occupied = λ t. cancel-IsOccupied topic t id b (v.occupied t);
}

subscribe-IsValid : (topic : String) {b : InProc} → IsValid b → IsValid (subscribe topic b).1
subscribe-IsValid topic {b} v = record {
  chans = λ t.
      rw (subscribers-subscribe, next-subscribe)
        (elim (Bool-cases (topic =s= t)) [
          | inl e ↦
              rw e ((omega arith, omega arith), IsChan-suc b.next (subscribers t b) (v.chans t))
          | inr e ↦ rw e (IsChan-suc b.next (subscribers t b) (v.chans t))
        ]);
  occupied = λ t. subscribe-IsOccupied topic t b (v.occupied t);
}

-- A step of the bus: a publish, a subscription, or its end.
pub data Step (b : InProc) : InProc → Type 0 where
  published : (topic : String) → Step b (publish topic b)
  subscribed : (topic : String) → Step b (subscribe topic b).1
  cancelled : (topic : String) (id : ℕ) → Step b (cancel topic id b)

-- Each step keeps the bus valid: channels hold one signal at most, and topics that nobody listens
-- to are dropped.
pub Step-IsValid : {b c : InProc} → Step b c → IsValid b → IsValid c
Step-IsValid (published topic) v = publish-IsValid topic v
Step-IsValid (subscribed topic) v = subscribe-IsValid topic v
Step-IsValid (cancelled topic id) v = cancel-IsValid topic id v

drop_chan_fresh : (n : ℕ) (chs : List Chan) → All (IsChan n) chs → drop_chan n chs ≡ chs
drop_chan_fresh n [] h = refl
drop_chan_fresh n (ch ∷ chs) h = ground (arith, drop_chan_fresh n chs h.1)

channel-subscribe : (topic : String) (b : InProc) → (subscribe topic b).0 ≡ b.next
unfolding subscribe
channel-subscribe topic b = refl

-- To cancel a subscription right after it was made leaves every topic with the subscribers that it had.
pub cancel-subscribe :
    (topic t : String) (b : InProc)
    → IsValid b
    → subscribers t (cancel topic (subscribe topic b).0 (subscribe topic b).1) ≡ subscribers t b
cancel-subscribe topic t b v =
    rw (subscribers-cancel, subscribers-subscribe, channel-subscribe)
      (elim (Bool-cases (topic =s= t)) [
        | inl e ↦ rw e (ground (arith, drop_chan_fresh b.next (subscribers t b) (v.chans t)))
        | inr e ↦ rw e
      ])
