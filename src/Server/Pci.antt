-- ===== src/Server/Pci.antt =====
-- The PCI throughput of one GPU in cmd/main.go: the goroutine `Get_GPUPci` adds to `tmprx[i]`, and the
-- main loop's `Get_RXTX_Data` publishes it as `GPU[i].GPURX` and resets it. `tmptx` is treated alike.
use gpu_metric_collector.Base.{
  ℕ, ◌+◌, ◌≡◌, refl, Bool, true, false, Option, none, some, List, [], ◌∷◌, arith,
}

-- `loaded` is the sum that the goroutine is about to store, and `copied` says that the main loop has
-- published the counter and not yet reset it. `measured` adds up all that the driver reported,
-- and `published` the values of GPURX, each taken once the round that stores it is over.
pub record Counter : Type 0 where
  pub tmprx : ℕ
  pub gpurx : ℕ
  pub loaded : Option ℕ
  pub copied : Bool
  pub measured : ℕ
  pub published : ℕ

-- `tmprx[i] += int(rxinfo)`: the sum, and the store.
unfoldable pub load_sum : ℕ → Counter → Counter
load_sum rxinfo c = record c { loaded = some (c.tmprx + rxinfo); measured = c.measured + rxinfo }

unfoldable pub store_sum : ℕ → Counter → Counter
store_sum sum c = record c { tmprx = sum; loaded = none }

-- `GPU[i].GPURX = tmprx[i]`, and `tmprx[i] = 0`.
unfoldable pub publish : Counter → Counter
publish c = record c { gpurx = c.tmprx; copied = true }

unfoldable pub reset : Counter → Counter
reset c = record c { tmprx = 0; copied = false; published = c.published + c.gpurx }

-- The statements as the two goroutines interleave them.
pub data Turn : Counter → Counter → Type 0 where
  turn_load : (rxinfo : ℕ) (c : Counter) → c.loaded ≡ none → Turn c (load_sum rxinfo c)
  turn_store : (sum : ℕ) (c : Counter) → c.loaded ≡ some sum → Turn c (store_sum sum c)
  turn_publish : (c : Counter) → c.copied ≡ false → Turn c (publish c)
  turn_reset : (c : Counter) → c.copied ≡ true → Turn c (reset c)

pub data Turns : Counter → Counter → Type 0 where
  stop : (c : Counter) → Turns c c
  turn : (c d e : Counter) → Turns c d → Turn d e → Turns c e

abbrev pub idle : Counter
idle = record { tmprx = 0; gpurx = 0; loaded = none; copied = false; measured = 0; published = 0 }

pub data PciCall : Type 0 where
  get_gpu_pci : ℕ → PciCall
  get_rxtx_data : PciCall

-- Rounds of either function, one after the other.
unfoldable pub rounds : List PciCall → Counter → Counter
rounds [] c = c
rounds (get_gpu_pci rxinfo ∷ rest) c =
    rounds rest (store_sum (c.tmprx + rxinfo) (load_sum rxinfo c))
rounds (get_rxtx_data ∷ rest) c = rounds rest (reset (publish c))

-- Where the two functions do not run at the same time, the values that GPURX had after each round of
-- `Get_RXTX_Data` and what is still counted make up all that the driver reported, if they did at the
-- start.
pub rounds-published :
    (rs : List PciCall) (c : Counter)
    → c.published + c.tmprx ≡ c.measured
    → (rounds rs c).published + (rounds rs c).tmprx ≡ (rounds rs c).measured
unfolding rounds load_sum store_sum publish reset
rounds-published [] c h = h
rounds-published (get_gpu_pci rxinfo ∷ rest) c h =
    rounds-published rest (store_sum (c.tmprx + rxinfo) (load_sum rxinfo c)) (omega (arith, h))
rounds-published (get_rxtx_data ∷ rest) c h =
    rounds-published rest (reset (publish c)) (omega (arith, h))

-- Run at the same time, they can lose a measurement and can count one twice: for any amounts there is
-- a run from the start that measures `r` and leaves nothing published or counted, and one that
-- measures r + s and leaves 2 r + s, each with no statement under way at its end.
pub Turns-measured :
    (r s : ℕ)
    → ((lost : Counter) × Turns idle lost
        × (lost.loaded ≡ none)
        × (lost.copied ≡ false)
        × (lost.measured ≡ r)
        × (lost.published + lost.tmprx ≡ 0))
      × ((twice : Counter) × Turns idle twice
          × (twice.loaded ≡ none)
          × (twice.copied ≡ false)
          × (twice.measured ≡ r + s)
          × (twice.published + twice.tmprx ≡ r + (r + s)))
unfolding load_sum store_sum publish reset
Turns-measured r s = (
  (
    reset (store_sum r (load_sum r (publish idle))),
    turn _ _ _
        (turn _ _ _
          (turn _ _ _ (turn _ _ _ (stop idle) (turn_publish idle refl))
            (turn_load r (publish idle) refl))
          (turn_store (0 + r) (load_sum r (publish idle)) refl))
        (turn_reset (store_sum (0 + r) (load_sum r (publish idle))) refl),
    refl,
    refl,
    omega arith,
    omega arith,
  ),
  (
    store_sum (0 + r + s) (reset (publish (load_sum s (store_sum (0 + r) (load_sum r idle))))),
    turn _ _ _
        (turn _ _ _
          (turn _ _ _
            (turn _ _ _
              (turn _ _ _ (turn _ _ _ (stop idle) (turn_load r idle refl))
                (turn_store (0 + r) (load_sum r idle) refl))
              (turn_load s (store_sum (0 + r) (load_sum r idle)) refl))
            (turn_publish (load_sum s (store_sum (0 + r) (load_sum r idle))) refl))
          (turn_reset (publish (load_sum s (store_sum (0 + r) (load_sum r idle)))) refl))
        (turn_store (0 + r + s) (reset (publish (load_sum s (store_sum (0 + r) (load_sum r idle)))))
          refl),
    refl,
    refl,
    omega arith,
    omega arith,
  ),
)
