-- ===== src/Adc/Guard.antt =====
-- The order of the set-up of s09_adc/src/bin/s09c01_adc_basic_setup.rs.
use rust_on_stm32_notebook.Common.{zero, suc, Bool, true, false, not, ◌&&◌, ◌∷◌}
use rust_on_stm32_notebook.Hardware.{on, pll, Effect, modify, sample, M}
use rust_on_stm32_notebook.Hardware.Monitor.{Keeps}
use rust_on_stm32_notebook.Adc
use rust_on_stm32_notebook.Adc.{Field}

-- What is known: which clocks and the voltage were read as ready, whether the flash and its caches are set,
-- whether the PLL is on, and whether the ADC listens and is on.
pub record Known : Type 0 where
  pub hse_ready : Bool
  pub vos_ready : Bool
  pub pll_ready : Bool
  pub flash_set : Bool
  pub pll_on : Bool
  pub adc_listens : Bool
  pub adc_on : Bool

abbrev pub at_reset : Known
at_reset = record {
  hse_ready = false;
  vos_ready = false;
  pll_ready = false;
  flash_set = false;
  pll_on = false;
  adc_listens = false;
  adc_on = false;
}

abbrev pub known_after : Effect Field → Known → Known
known_after (sample Adc.hserdy zero) s = record s { hse_ready = false }
known_after (sample Adc.hserdy (suc v)) s = record s { hse_ready = true }
known_after (sample Adc.vosrdy zero) s = record s { vos_ready = false }
known_after (sample Adc.vosrdy (suc v)) s = record s { vos_ready = true }
known_after (sample Adc.pllrdy zero) s = record s { pll_ready = false }
known_after (sample Adc.pllrdy (suc v)) s = record s { pll_ready = true }
known_after (modify ((Adc.latency, v) ∷ fs)) s = record s { flash_set = true }
known_after (modify ((Adc.pllon, on) ∷ fs)) s = record s { pll_on = true }
known_after (modify ((Adc.nvic_adc, v) ∷ fs)) s = record s { adc_listens = true }
known_after (modify ((Adc.adon, v) ∷ fs)) s = record s { adc_on = true }
known_after _ s = s

-- The PLL and the voltage scale are set only while the PLL is off, the caches are reset only before they
-- are enabled; the PLL starts on a ready HSE and becomes the system clock when all is ready. The ADC is
-- configured while it is off, switched on when its handler is unmasked, and triggered when it is on.
abbrev pub setup_allowed : Effect Field → Known → Bool
setup_allowed (modify ((Adc.pllsrc, v) ∷ fs)) s = not s.pll_on
setup_allowed (modify ((Adc.vos, v) ∷ fs)) s = not s.pll_on
setup_allowed (modify ((Adc.dcrst, v) ∷ fs)) s = not s.flash_set
setup_allowed (modify ((Adc.pllon, on) ∷ fs)) s = s.hse_ready
setup_allowed (modify ((Adc.sw, pll) ∷ fs)) s = s.vos_ready && (s.pll_ready && s.flash_set)
setup_allowed (modify ((Adc.sq1, v) ∷ fs)) s = not s.adc_on
setup_allowed (modify ((Adc.extsel, v) ∷ fs)) s = not s.adc_on
setup_allowed (modify ((Adc.adon, v) ∷ fs)) s = s.adc_listens
setup_allowed (modify ((Adc.cen, v) ∷ fs)) s = s.adc_on
setup_allowed _ s = true

abbrev KeepsKnown : {A : Type 0} → Known → Known → M Field A → Type 0
KeepsKnown = Keeps known_after setup_allowed

abbrev hse_on : Known
hse_on = record at_reset { hse_ready = true }

abbrev flash_on : Known
flash_on = record hse_on { flash_set = true }

abbrev started : Known
started = record flash_on { pll_on = true }

abbrev voltage_ready : Known
voltage_ready = record started { vos_ready = true }

abbrev clock_ready : Known
clock_ready = record voltage_ready { pll_ready = true }

abbrev listening : Known
listening = record clock_ready { adc_listens = true }

abbrev all_on : Known
all_on = record listening { adc_on = true }
