-- ===== src/Pthread.antt =====
-- The threads that task runners and job runners hold, as the calls of the POSIX threads library that
-- the program makes treat them. A thread that has been joined is no thread any more: a call on it is
-- undefined behaviour, which is `none`.
use pyoneer.Prelude.{Option, none, some, Bool, if◌then◌else◌}

pub data Thread : Type 0 where
  alive over joined : Thread

-- The request to cancel; the thread acts on it before it is joined.
unfoldable pub pthread_cancel : Thread → Option Thread
pthread_cancel joined = none
pthread_cancel t = some t

-- The call returns once the thread is over.
unfoldable pub pthread_join : Thread → Option Thread
pthread_join joined = none
pthread_join t = some joined

infixl 5 ◌>>=◌
abbrev pub ◌>>=◌ {ℓ κ} : {A : Type ℓ} {B : Type κ} → Option A → (A → Option B) → Option B
none >>= k = none
some a >>= k = k a

-- Both calls in a row, as every stop makes them.
unfoldable pub cancel_and_join : Thread → Option Thread
unfolding pthread_cancel pthread_join
cancel_and_join t = do t' ← pthread_cancel t; pthread_join t'

-- `pthread_create` into the same variable, which keeps what it held where the call fails.
unfoldable pub create_again : Bool → Thread → Thread
create_again created t = if created then alive else t
