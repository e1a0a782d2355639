-- ===== src/Broker/Tests.antt =====
-- The broker at concrete inputs.
use nadi.Common.{refl, arith}
use nadi.Store.Fixture.{small_store}
use nadi.Stack.Fixture.{test_config, small_world}
use nadi.Broker.{place_session}
use nadi.Broker.Capacity.{IsWithin, place_session-IsWithin}

small_store-IsWithin : IsWithin small_store
small_store-IsWithin = record { keyed = ((λ _. refl, tt), tt); fits = (omega arith, tt) }

place_session-IsWithin_example : IsWithin (place_session test_config "s1" small_world).1.store
place_session-IsWithin_example =
    place_session-IsWithin test_config "s1" small_world small_store-IsWithin
