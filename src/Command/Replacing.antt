-- ===== src/Command/Replacing.antt =====
-- server/command.go and core/multiplexer.go: a multiplexer in place of the instance.
use nodemux.Common.{true, false, some, All, ◌≡◌, refl, Bool-cases, Option-cases, inl, inr}
use nodemux.Multiplexer.{Multiplexer}
use nodemux.Multiplexer.Invariant.{Inv}
use nodemux.Instance.{set_multiplexer}
use nodemux.System.{start_sync, started, stop_sync}
use nodemux.System.Start.{started-Inv}
use nodemux.Command.{Process, begin_sync, retire, replace_instance}

pub begin_sync-syncing : (m : Multiplexer) → (begin_sync m).syncing ≡ true
unfolding begin_sync start_sync started
begin_sync-syncing m = elim (Bool-cases m.syncing) [
  | inl on ↦ rw (on, begin_sync, start_sync) on
  | inr off ↦ rw (off, begin_sync, start_sync) refl
]

pub begin_sync-Inv : (m : Multiplexer) → Inv m → Inv (begin_sync m)
unfolding begin_sync start_sync
begin_sync-Inv m v = elim (Bool-cases m.syncing) [
  | inl on ↦ rw (on, begin_sync, start_sync) v
  | inr off ↦ rw (off, begin_sync, start_sync) (started-Inv m v)
]

stop_sync-syncing : (m : Multiplexer) → (stop_sync m).syncing ≡ false
unfolding stop_sync
stop_sync-syncing m = elim (Bool-cases m.syncing) [
  | inl on ↦ rw (on, stop_sync) refl
  | inr off ↦ rw (off, stop_sync) refl
]

abbrev pub IsStopped : Multiplexer → Type 0
IsStopped m = m.syncing ≡ false

pub replace_instance-IsStopped :
    (p : Process) (m : Multiplexer)
    → All IsStopped p.retired
    → All IsStopped (replace_instance p m).retired
unfolding replace_instance retire set_multiplexer
replace_instance-IsStopped p m stopped = elim (Option-cases p.instance') [
  | inl e ↦ rw (e, replace_instance, set_multiplexer, retire) stopped
  | inr (old, e) ↦
      rw (e, replace_instance, set_multiplexer, retire) (stop_sync-syncing old, stopped)
]

pub instance-replace_instance :
    (p : Process) (m : Multiplexer) → (replace_instance p m).instance' ≡ some (begin_sync m)
unfolding replace_instance set_multiplexer
instance-replace_instance p m = elim (Option-cases p.instance') [
  | inl e ↦ rw (e, replace_instance, set_multiplexer) refl
  | inr (old, e) ↦ rw (e, replace_instance, set_multiplexer) refl
]
