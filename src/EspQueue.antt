-- ===== src/EspQueue.antt =====
-- esp_hosted_fg/host/components/src/esp_queue.c: a linked list with pointers to its front and rear,
-- over a heap. The address that `malloc` returns is input; an access to an address that holds no
-- node is a fault. Data pointers are numbers, 0 for NULL, and what they point to is not modelled.
pub mod Chain
pub mod Refine
pub mod Release
pub mod Life
use esp_hosted.Prelude.{ℕ, zero, suc, Bool, true, false, Option, none, some, ◌==◌, if◌then◌else◌}

abbrev pub null : ℕ
null = 0

-- `q_node_t`
pub record QNode : Type 0 where
  pub elem : ℕ
  pub next : ℕ

abbrev pub Heap : Type 0
Heap = ℕ → Option QNode

unfoldable pub store : Heap → ℕ → Option QNode → Heap
store h p c a = if a == p then c else h a

-- `esp_queue_t`
pub record EspQueue : Type 0 where
  pub front : ℕ
  pub rear : ℕ

-- `create_esp_queue`, when it gets its memory.
abbrev pub create_esp_queue : EspQueue
create_esp_queue = record { front = null; rear = null }

-- ESP_QUEUE_SUCCESS and ESP_QUEUE_ERR_MEMORY
pub data QueueRet : Type 0 where
  queue_success queue_err_memory : QueueRet

-- The state after a call: the queue and the heap.
abbrev pub QState : Type 0
QState = EspQueue × Heap

-- `esp_queue_put`, of a queue that is not NULL; none is a fault.
unfoldable pub esp_queue_put : Option ℕ → ℕ → QState → Option (QueueRet × QState)
unfolding store
esp_queue_put none elem s = some (queue_err_memory, s)
esp_queue_put (some p) elem (q, h) =
    let h' = store h p (some (record { elem = elem; next = null })) in
    if q.rear == null
    then some (queue_success, (record { front = p; rear = p }, h'))
    else elim (h' q.rear) [
      | none ↦ none
      | some n ↦
          some
            (queue_success, (record q { rear = p }, store h' q.rear (some (record n { next = p }))))
    ]

-- `esp_queue_get`, of a queue that is not NULL: the data pointer, NULL if the queue is empty.
unfoldable pub esp_queue_get : QState → Option (ℕ × QState)
unfolding store
esp_queue_get (q, h) = if q.front == null then some (null, (q, h)) else elim (h q.front) [
  | none ↦ none
  | some n ↦ some (
    n.elem,
    (
      record { front = n.next; rear = if n.next == null then null else q.rear },
      store h q.front none,
    ),
  )
]

-- The loop of `esp_queue_destroy`, on fuel: the heap that it leaves. What the data pointers point to
-- is freed as well.
unfoldable pub destroy_loop : ℕ → QState → Option Heap
unfolding store
destroy_loop zero s = none
destroy_loop (suc fuel) (q, h) = elim (q.front == null) [
  | true ↦ some h
  | false ↦ elim (h q.front) [
    | none ↦ none
    | some n ↦ destroy_loop fuel (record q { front = n.next }, store h q.front none)
  ]
]
