-- ===== src/Bus.antt =====
-- internal/bus/bus.go: the in-process bus. A subscription is a channel with room for one signal.
pub mod Laws
use fleet_core.Prelude.{
  ℕ, ◌+◌, String, not, none, some, List, [], ◌∷◌, map, ltb, ◌==◌, if◌then◌else◌, keep_if,
}
use fleet_core.GoMap.{GoMap, get, put, delete}

-- `chan struct{}` of capacity 1: who it is, and how many signals wait in it.
pub record Chan : Type 0 where
  pub id : ℕ
  pub pending : ℕ

-- `next` is a channel that nobody has.
pub record InProc : Type 0 where
  pub subs : GoMap (List Chan)
  pub next : ℕ

abbrev pub new_in_proc : InProc
new_in_proc = record { subs = []; next = 0 }

-- `b.subs[topic]`
abbrev pub subscribers : String → InProc → List Chan
subscribers topic b = elim (get topic b.subs) [ none ↦ [] | some chs ↦ chs ]

-- `select { case ch <- struct{}{}: default: }`
unfoldable pub offer : Chan → Chan
offer ch = if ltb ch.pending 1 then record ch { pending = ch.pending + 1 } else ch

unfoldable pub publish : String → InProc → InProc
unfolding offer
publish topic b = elim (get topic b.subs) [
  | none ↦ b
  | some chs ↦ record b { subs = put topic (map offer chs) b.subs }
]

unfoldable pub subscribe : String → InProc → ℕ × InProc
subscribe topic b = (
  b.next,
  record {
    subs = put topic (record { id = b.next; pending = 0 } ∷ subscribers topic b) b.subs;
    next = b.next + 1;
  },
)

-- `delete(b.subs[topic], ch)`
abbrev pub drop_chan : ℕ → List Chan → List Chan
drop_chan id = keep_if (λ ch. not (ch.id == id))

-- The cancel function that `Subscribe` returns.
unfoldable pub cancel : String → ℕ → InProc → InProc
cancel topic id b = elim (drop_chan id (subscribers topic b)) [
  | [] ↦ record b { subs = delete topic b.subs }
  | ch ∷ chs ↦ record b { subs = put topic (ch ∷ chs) b.subs }
]
