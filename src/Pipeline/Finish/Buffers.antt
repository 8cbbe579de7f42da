-- ===== src/Pipeline/Finish/Buffers.antt =====
-- NotifyFinish frees the buffer of the channel that it is called for and drops its counts; the destructor
-- calls it for both channels.
use hipace.Prelude.{
  ℕ, ◌+◌, ◌≡◌, ap, Bool, true, false, Option, none, some, List, [], ok, arith, >>=-eq-ok,
}
use hipace.Reals.{Real}
use hipace.Pipeline.State.{Rank, channel}
use hipace.Pipeline.Finish.{finish_channel, notify_finish, destroy}

abbrev pub held : {K : Type 0} → Option (List K) → ℕ
held none = 0
held (some _) = 1

module _ {R P K : Type 0} where
  -- Every buffer that the arena has handed out and not taken back hangs on a channel.
  abbrev pub IsBalanced : Rank R P K → Type 0
  IsBalanced r = r.allocs ≡ r.frees + held r.valid.psend_buffer + held r.ghost.psend_buffer

  -- No buffer and no counts are left on the channel.
  pub record IsIdle (r : Rank R P K) (g : Bool) : Type 0 where
    pub no_counts : (channel r g).np_snd ≡ []
    pub no_buffer : (channel r g).psend_buffer ≡ none

  pub finish_channel-IsBalanced :
      (r : Rank R P K) (g : Bool) → IsBalanced r → IsBalanced (finish_channel r g)
  unfolding finish_channel
  finish_channel-IsBalanced r true h = ground arith
  finish_channel-IsBalanced r false h = ground arith

  pub finish_channel-IsIdle : (r : Rank R P K) (g : Bool) → IsIdle (finish_channel r g) g
  unfolding finish_channel
  finish_channel-IsIdle r true = ground arith
  finish_channel-IsIdle r false = ground arith

  -- The other channel, and all that is not a channel, stay as they are.
  pub finish_channel-other :
      (r : Rank R P K) (g : Bool)
      → ((finish_channel r true).valid ≡ r.valid)
        × ((finish_channel r false).ghost ≡ r.ghost)
        × ((finish_channel r g).beams ≡ r.beams)
        × ((finish_channel r g).box_sorters ≡ r.box_sorters)
  unfolding finish_channel
  finish_channel-other r true = ground arith
  finish_channel-other r false = ground arith

  module _ ⦃real : Real R⦄ where
    pub notify_finish-IsBalanced :
        (r q : Rank R P K) (it : ℕ) (g : Bool)
        → notify_finish r it g ≡ ok q
        → IsBalanced r
        → (IsBalanced q) × IsIdle q g
    unfolding notify_finish
    notify_finish-IsBalanced r q it true e h = ground arith
    notify_finish-IsBalanced r q it false e h = ground arith

    ghost_keeps_valid :
        (r q : Rank R P K) (it : ℕ)
        → notify_finish r it true ≡ ok q
        → IsIdle r false
        → IsIdle q false
    unfolding notify_finish
    ghost_keeps_valid r q it e idle = ground arith

    -- The destructor frees every buffer just once: if until then the buffers that hang on the two
    -- channels are all that is not freed, then after its two calls of NotifyFinish everything is,
    -- and neither counts nor buffers are left on either channel.
    pub destroy-IsIdle :
        (r q : Rank R P K)
        → IsBalanced r
        → destroy r ≡ ok q
        → (q.allocs ≡ q.frees) × IsIdle q true × IsIdle q false
    unfolding destroy
    destroy-IsIdle r q h e =
        let (finished, first, second) = >>=-eq-ok (notify_finish r 0 false) _ e in
        let (balanced, idle) = notify_finish-IsBalanced r finished 0 false first h in
        let (balanced', idle') = notify_finish-IsBalanced finished q 0 true second balanced in
        let idle_valid : IsIdle q false = ghost_keeps_valid finished q 0 second idle in
        (omega (arith, ap held idle'.no_buffer, ap held idle_valid.no_buffer), idle', idle_valid)
