-- ===== src/Clock/Source.antt =====
-- What s01_rcc/src/bin/s01c01_basic_0addr.rs logs of the source of the system clock.
