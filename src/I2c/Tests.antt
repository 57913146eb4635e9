-- ===== src/I2c/Tests.antt =====
-- Transfers of s04_i2c/src/bin/s04c01_i2c1_to_i2c2.rs at concrete orders of the interrupts.
use rust_on_stm32_notebook.Common.{
  ◌+◌, ◌≡◌, refl, arith, true, false, if◌then◌else◌, List, [], ◌∷◌, ◌++◌, take, drop, replicate,
  ltb,
}
use rust_on_stm32_notebook.Hardware.{done, panic}
use rust_on_stm32_notebook.I2c.{out_list, MasterStatus, slave_start, SlaveStatus}
use rust_on_stm32_notebook.I2c.Sending.{sent, stops}
use rust_on_stm32_notebook.I2c.Receiving.{holding, listen, listen_logs}
use rust_on_stm32_notebook.I2c.Session.{
  serve, sender_start, session_sends, session_panics, transfer_delivers,
}

abbrev started : MasterStatus
started = record { sb = true; addr = false; stop_pending = false; tx_e = false }

abbrev matched : MasterStatus
matched = record { sb = false; addr = true; stop_pending = false; tx_e = true }

abbrev empty : MasterStatus
empty = record { sb = false; addr = false; stop_pending = false; tx_e = true }

abbrev stopping : MasterStatus
stopping = record { sb = false; addr = false; stop_pending = true; tx_e = true }

-- The address is acknowledged with an empty buffer, and more bytes follow.
abbrev after_start : List MasterStatus
after_start = matched ∷ (replicate 8 empty ++ (stopping ∷ []))

session_sends_example :
    let r = serve (started ∷ matched ∷ empty ∷ []) sender_start [] in
    (r.outcome ≡ done (record { sending_index = 2; sending_int_cnt = 4 }))
    × (sent r.trace ≡ 170 ∷ take 2 out_list)
    × (stops r.trace ≡ (if ltb 2 9 then 0 else 1))
session_sends_example =
    session_sends started (matched ∷ empty ∷ []) [] refl refl (refl, (refl, tt)) (omega arith)
      (omega arith)

ten_empty_panic : (serve (started ∷ replicate 10 empty) sender_start []).outcome ≡ panic
ten_empty_panic =
    session_panics started (replicate 10 empty) [] refl refl
      (refl, (refl, (refl, (refl, (refl, (refl, (refl, (refl, (refl, (refl, tt))))))))))
      (omega arith) (omega arith)

abbrev selected : SlaveStatus
selected = record { addr = true; rx_ne = false; stopf = false }

abbrev filled : SlaveStatus
filled = record { addr = false; rx_ne = true; stopf = false }

abbrev filled_and_stopped : SlaveStatus
filled_and_stopped = record { addr = false; rx_ne = true; stopf = true }

abbrev at_slave : List SlaveStatus
at_slave = selected ∷ (replicate 8 filled ++ (filled_and_stopped ∷ []))

-- A second transfer: the bytes of the first are logged again.
two_bytes_logged :
    (listen (selected ∷ filled_and_stopped ∷ []) (holding (7 ∷ []) 3) (8 ∷ [])).outcome
    ≡ done (record { slave = holding (7 ∷ 8 ∷ []) (3 + 2); log = (7 ∷ 8 ∷ []) ∷ [] })
two_bytes_logged =
    listen_logs (selected ∷ filled_and_stopped ∷ []) (7 ∷ []) (8 ∷ []) 3 (refl, refl) (omega arith)
      refl (omega arith) (omega arith)

transfer_delivers_example :
    let r = serve (started ∷ after_start) sender_start [] in
    (r.outcome ≡ done (record { sending_index = 9; sending_int_cnt = 10 + 2 }))
    × (stops r.trace ≡ 1)
    × ((listen at_slave slave_start (drop 1 (sent r.trace))).outcome
        ≡ done (record { slave = holding out_list (1 + 10); log = out_list ∷ [] }))
transfer_delivers_example =
    transfer_delivers started after_start at_slave [] refl refl
      (refl, (refl, (refl, (refl, (refl, (refl, (refl, (refl, (refl, (refl, tt)))))))))) refl
      (omega arith) (refl, (refl, (refl, (refl, (refl, (refl, (refl, (refl, (refl, refl)))))))))
      refl (omega arith)
