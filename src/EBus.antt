-- ===== src/EBus.antt =====
-- kernel/src/anbo_ebus.c: the event bus. The head of the bucket `i` is the node `i`; a subscriber is
-- known by its node, and a handler by a number.
pub mod Buckets
pub mod Registry
pub mod Publish
pub mod Stuck
mod Examples
use anbo_mos.Common.{ℕ, zero, suc, ◌+◌, ◌-◌, ◌%◌, Option, none, some, ◌==◌, if◌then◌else◌}
use anbo_mos.Links
use anbo_mos.Links.{Node, Links}

-- `Anbo_Event`, whose parameter points to something the bus does not look at.
pub record Event : Type 0 where
  pub sig : ℕ
  pub param : ℕ

-- `Anbo_Subscriber` without its node.
pub record Subscriber : Type 0 where
  pub sig : ℕ
  pub handler : ℕ
  pub ctx : ℕ

-- The lists, from the heads `s_buckets`, and the subscribers' fields.
pub record Bus : Type 0 where
  pub links : Links
  pub subs : Node → Subscriber

abbrev pub max_topics : ℕ
max_topics = 32

abbrev pub sig_to_idx : ℕ → ℕ
sig_to_idx sig = sig % max_topics

-- The loop of `Anbo_EBus_Init` with `n` rounds left, at `i`.
unfoldable pub init_loop : ℕ → ℕ → Links → Links
init_loop zero i l = l
init_loop (suc n) i l = init_loop n (i + 1) (Links.init l i)

unfoldable pub init : Bus → Bus
unfolding init_loop
init b = record b { links = init_loop max_topics 0 b.links }

abbrev pub set_sub : (Node → Subscriber) → Node → Subscriber → Node → Subscriber
set_sub subs n x m = if m == n then x else subs m

unfoldable pub subscribe : Bus → Option Node → (sig : ℕ) → (handler : Option ℕ) → (ctx : ℕ) → Bus
subscribe b none sig handler ctx = b
subscribe b (some sub) sig none ctx = b
subscribe b (some sub) sig (some h) ctx = record {
  links = Links.insert_tail (Links.init b.links sub) (sig_to_idx sig) sub;
  subs = set_sub b.subs sub (record { sig = sig; handler = h; ctx = ctx });
}

unfoldable pub unsubscribe : Bus → Option Node → Bus
unsubscribe b none = b
unsubscribe b (some sub) = record b { links = Links.remove b.links sub }

-- `call` is what a handler does to the bus and to the rest of the world; `trace` is
-- `ANBO_TRACE_PUBLISH`.
module _ {ℓ} {World : Type ℓ}
    (call : (handler : ℕ) → Event → (ctx : ℕ) → Bus × World → Bus × World) where
  -- The body of the loop: the handler is called if the signal is the subscriber's.
  unfoldable pub notify : Event → Node → Bus × World → Bus × World
  notify evt pos (b, w) =
      let sub = b.subs pos in
      if sub.sig == evt.sig then call sub.handler evt sub.ctx (b, w) else (b, w)

  -- The loop of `ebus_dispatch` at `pos`, with the successor `tmp` noted beforehand. `none` means
  -- that the fuel, a bound on the rounds, ran out.
  unfoldable pub dispatch_loop :
      ℕ → Event → (head pos tmp : Node) → Bus × World → Option (Bus × World)
  unfolding notify
  dispatch_loop zero evt head pos tmp s = none
  dispatch_loop (suc fuel) evt head pos tmp s =
      let s' = notify evt pos s in
      let rest = dispatch_loop fuel evt head tmp (s'.0.links.next tmp) s' in
      if pos == head then some s else rest

  unfoldable pub ebus_dispatch : ℕ → Event → Bus × World → Option (Bus × World)
  unfolding dispatch_loop
  ebus_dispatch fuel evt (b, w) =
      let head = sig_to_idx evt.sig in
      let pos = b.links.next head in dispatch_loop fuel evt head pos (b.links.next pos) (b, w)

  unfoldable pub publish_silent : ℕ → Option Event → Bus × World → Option (Bus × World)
  unfolding ebus_dispatch
  publish_silent fuel none s = some s
  publish_silent fuel (some evt) s = ebus_dispatch fuel evt s

  unfoldable pub publish :
      (trace : ℕ → World → World) → ℕ → Option Event → Bus × World → Option (Bus × World)
  unfolding ebus_dispatch
  publish trace fuel none s = some s
  publish trace fuel (some evt) (b, w) = ebus_dispatch fuel evt (b, trace evt.sig w)

  unfoldable pub publish_sig :
      (trace : ℕ → World → World) → ℕ → (sig param : ℕ) → Bus × World → Option (Bus × World)
  unfolding publish
  publish_sig trace fuel sig param s =
      publish trace fuel (some (record { sig = sig; param = param })) s

  unfoldable pub publish_sig_silent : ℕ → (sig param : ℕ) → Bus × World → Option (Bus × World)
  unfolding publish_silent
  publish_sig_silent fuel sig param s =
      publish_silent fuel (some (record { sig = sig; param = param })) s
