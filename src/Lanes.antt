-- ===== src/Lanes.antt =====
-- The three queues of a bus driver, as esp_spi.c of the Linux host (`tx_q`, `rx_q`) and
-- spi_slave_api.c of the coprocessor (`spi_tx_queue`, `spi_rx_queue`) fill and drain them.
pub mod Order
use esp_hosted.Prelude.{
  ℕ, zero, suc, ◌+◌, ◌-◌, List, [], ◌∷◌, ◌++◌, Option, none, some, length, ◌==◌, if◌then◌else◌,
}
use esp_hosted.Header.{serial_if, hci_if}

-- PRIO_Q_SERIAL, PRIO_Q_BT and PRIO_Q_OTHERS
pub record Lanes {ℓ} (A : Type ℓ) : Type ℓ where
  pub serial : List A
  pub bt : List A
  pub others : List A

module _ {ℓ} {A : Type ℓ} where
  -- The queue that a frame of an interface type goes to.
  unfoldable pub enqueue : ℕ → A → Lanes A → Lanes A
  enqueue if_type a q =
      if if_type == serial_if
      then record q { serial = q.serial ++ a ∷ [] }
      else if if_type == hci_if
      then record q { bt = q.bt ++ a ∷ [] }
      else record q { others = q.others ++ a ∷ [] }

  -- The first queue that holds something gives its oldest element.
  unfoldable pub dequeue : Lanes A → Option (A × Lanes A)
  dequeue q = elim q.serial [
    | a ∷ rest ↦ some (a, record q { serial = rest })
    | [] ↦ elim q.bt [
      | a ∷ rest ↦ some (a, record q { bt = rest })
      | [] ↦ elim q.others [ a ∷ rest ↦ some (a, record q { others = rest }) | [] ↦ none ]
    ]
  ]

  -- How many elements wait.
  abbrev pub size : Lanes A → ℕ
  size q = length q.serial + length q.bt + length q.others
