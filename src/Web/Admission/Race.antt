-- ===== src/Web/Admission/Race.antt =====
-- The limit on connections, with the two methods run by one thread and by two.
use distributed_data_science.Prelude.{◌+◌, ◌-◌, ◌^◌, ◌≤◌, ◌<◌, ◌≡◌, true, false, arith}
use distributed_data_science.Prelude.Words.{increment, decrement}
use distributed_data_science.Web.Admission.{
  Connections, load_for_acquire, load_for_release, finish, acquire_connection, release_connection,
}

-- Run without interruption, the two methods keep the number of connections within the limit; a
-- connection is refused exactly at the limit, and one acquired and released leaves the number as it was.
pub acquire_connection-bound :
    (c : Connections)
    → c.active_connections ≤ c.max_connections
    → c.max_connections < 2 ^ 64
    → let (accepted, c') = acquire_connection c in
      (c'.active_connections ≤ c.max_connections)
      × ((release_connection c).active_connections ≤ c.max_connections)
      × (accepted ≡ false → c.active_connections ≡ c.max_connections)
      × (accepted ≡ true
          → ((release_connection c').active_connections ≡ c.active_connections)
            × (c'.active_connections ≡ c.active_connections + 1))
unfolding acquire_connection release_connection load_for_acquire load_for_release finish increment
    decrement
acquire_connection-bound c h b = ground arith

-- Two threads that both load the number of connections before either changes it are both let in where
-- one place is left, which takes the number above the limit, and both leave where one connection is
-- there, which wraps the number around to 2^64 - 1.
pub two_threads :
    (c : Connections)
    → c.max_connections < 2 ^ 64 - 1
    → (c.active_connections + 1 ≡ c.max_connections
        → (finish (load_for_acquire c) (finish (load_for_acquire c) c)).active_connections
          ≡ c.max_connections + 1)
      × (c.active_connections ≡ 1
          → (finish (load_for_release c) (finish (load_for_release c) c)).active_connections
            ≡ 2 ^ 64 - 1)
unfolding load_for_acquire load_for_release finish increment decrement
two_threads c b = ground arith
