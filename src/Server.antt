-- ===== src/Server.antt =====
-- internal/server: what the handlers of the control plane share. The clock and the random
-- identities are the environment's: `now` is the time at which the request is served, and `fresh n`
-- the n-th identity that `newID` returns.
use fleet_core.Prelude.{ℕ, ◌+◌, String}
use fleet_core.Prelude.Exec.{ok, Exec, modify}
use fleet_core.Store.{FileStore}
use fleet_core.Bus
use fleet_core.Bus.{InProc}

pub record Server : Type 0 where
  pub store : FileStore
  pub bus : InProc
  pub now : ℕ
  pub fresh : ℕ → String
  pub issued : ℕ

-- `s.Store.…`
abbrev pub on_store : {E A : Type 0} → Exec FileStore E A → Exec Server E A
on_store m s = let (r, st) = m s.store in (r, record s { store = st })

-- `s.Bus.Publish(topic)`
unfoldable pub publish : {E : Type 0} → String → Exec Server E (Unit {0})
publish topic = modify (λ s. record s { bus = Bus.publish topic s.bus })

-- `newID()`
unfoldable pub new_id : {E : Type 0} → Exec Server E String
new_id s = (ok (s.fresh s.issued), record s { issued = s.issued + 1 })

-- `time.Now().Unix()`
unfoldable pub time_now : {E : Type 0} → Exec Server E ℕ
time_now s = (ok s.now, s)
