-- ===== src/Metering/Tests.antt =====
-- Runs of metering on the fixtures.
use cost_ai_grid_poc.Prelude.{◌≡◌, refl, true, some}
use cost_ai_grid_poc.Prelude.Int.{pos, ◌+ℤ◌}
use cost_ai_grid_poc.Store.{get_compute_instance}
use cost_ai_grid_poc.Fixtures.{store, instance_1}
use cost_ai_grid_poc.Metering.States.{is_compute_instance_billable}
use cost_ai_grid_poc.Metering.Sweep.{meter_compute_instances, meter_compute_instance_final}
use cost_ai_grid_poc.Metering.Uptime.{uptime, AreMeteredOnce}
use cost_ai_grid_poc.Metering.Once.{meter_compute_instances-AreMeteredOnce}
use cost_ai_grid_poc.Metering.Final.{meter_compute_instance_final_repeats}

meter_compute_instances-AreMeteredOnce_example : AreMeteredOnce (meter_compute_instances 160 store)
unfolding ◌+ℤ◌
meter_compute_instances-AreMeteredOnce_example =
    meter_compute_instances-AreMeteredOnce 160 store ((refl, tt), (refl, tt))

found : get_compute_instance store "i1" ≡ some instance_1
unfolding get_compute_instance
found = refl

billable : is_compute_instance_billable "COMPUTE_INSTANCE_STATE_RUNNING" ≡ true
unfolding is_compute_instance_billable
billable = refl

meter_compute_instance_final_repeats_example :
    (uptime "i1" (meter_compute_instance_final "i1" 160 store) ≡ uptime "i1" store +ℤ pos 60)
    × (uptime "i1"
          (meter_compute_instance_final "i1" 160 (meter_compute_instance_final "i1" 160 store))
        ≡ uptime "i1" store +ℤ pos 60 +ℤ pos 60)
meter_compute_instance_final_repeats_example =
    meter_compute_instance_final_repeats "i1" 160 instance_1 store found billable refl
