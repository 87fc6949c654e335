-- ===== src/Device/Reach.antt =====
-- The states of the device manager, src/device/device.c, that a run of the daemon reaches, each
-- operation a step.
use moon_flare.Prelude.{Bool, List, Option, Bytes, All}
use moon_flare.Device.Spec.{DeviceConfig}
use moon_flare.Device.Plugin.{Plugin, Patch}
use moon_flare.Device.Table.{Devices, init, tick, request_stop_all}
use moon_flare.Device.Add.{Request, add}
use moon_flare.Device.Settings.{put_settings, action}
use moon_flare.Device.Apply.{apply_config, apply_pending, delete}
use moon_flare.Device.Distinct.{WellFormed}
use moon_flare.Device.Distinct.Adding.{HasUuid, add-WellFormed}
use moon_flare.Device.Distinct.Running.{
  init-WellFormed, tick-WellFormed, action-WellFormed, delete-WellFormed, stop_all-WellFormed,
}
use moon_flare.Device.Distinct.Putting.{put_settings-WellFormed}
use moon_flare.Device.Distinct.Applying.{
  HasShortUuid, HasShortUuids, apply_config-WellFormed, apply_pending-WellFormed,
}

infix 40 ◌⟶◌
pub data ◌⟶◌ : Devices → Devices → Type 0 where
  adds : {g : Devices} (r : Request) → HasUuid g r → g ⟶ (add g r).0
  puts : {g : Devices} (uuid : Bytes) (p : Option Patch) → g ⟶ (put_settings g uuid p).0
  acts : {g : Devices} (uuid name json : Bytes) → g ⟶ (action g uuid name json).0
  deletes : {g : Devices} (uuid : Bytes) → g ⟶ (delete g uuid).0
  ticks : {g : Devices} (quit : Bool) → g ⟶ tick quit g
  stops : {g : Devices} → g ⟶ request_stop_all g
  configures :
      {g : Devices} (devs : List DeviceConfig) → All HasShortUuid devs → g ⟶ (apply_config g devs).0
  retries : {g : Devices} → All HasShortUuids g.pending → g ⟶ apply_pending g

pub data Reaches : Devices → Type 0 where
  starts :
      (threads : Bool) (plugins : List Plugin) (history_open : Bool)
      → Reaches (init threads plugins history_open)
  then : {g h : Devices} → Reaches g → g ⟶ h → Reaches h

step-WellFormed : (g h : Devices) → g ⟶ h → WellFormed g.slots → WellFormed h.slots
step-WellFormed g h (adds r u) w = add-WellFormed g r u w
step-WellFormed g h (puts uuid p) w = put_settings-WellFormed g uuid p w
step-WellFormed g h (acts uuid name json) w = action-WellFormed g uuid name json w
step-WellFormed g h (deletes uuid) w = delete-WellFormed g uuid w
step-WellFormed g h (ticks quit) w = tick-WellFormed quit g w
step-WellFormed g h stops w = stop_all-WellFormed g w
step-WellFormed g h (configures devs u) w = apply_config-WellFormed g devs u w
step-WellFormed g h (retries u) w = apply_pending-WellFormed g u w

-- In every state that additions, settings, actions, deletions, ticks, the stop of all devices,
-- configurations and retries lead to, in any order, there are 32 slots, no two in use share a uuid,
-- no two live ones share a name, and no slot in use has an interval below its driver's; as long as
-- the uuids that are given have 36 bytes at most and those that are made up are not in use.
pub reach-WellFormed : (g : Devices) → Reaches g → WellFormed g.slots
reach-WellFormed g (starts threads plugins history_open) =
    init-WellFormed threads plugins history_open
reach-WellFormed g (then r s) = step-WellFormed _ g s (reach-WellFormed _ r)
