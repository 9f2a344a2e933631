-- ===== src/Dns.antt =====
-- src/shared/dns_worker.c: the queue of the names to resolve.
--
-- The linked list from `queue_head` to `queue_tail` is a list. The two threads take the mutex for
-- each of the steps here, so that a run of both is a sequence of them. `address` is where the result
-- goes, `*result_target`. getaddrinfo is an argument, and NULL is an empty list of addresses.
use tpe_protos_g.Base.{
  ℕ, ◌-◌, Bool, true, false, not, List, [], ◌∷◌, ◌++◌, Bytes, if◌then◌else◌, take,
}
use tpe_protos_g.Mng.Text.{decimal}

abbrev pub host_max_len : ℕ
host_max_len = 256

pub record Job : Type 0 where
  pub host : Bytes
  pub port : Bytes
  pub fd : ℕ
  pub result_target : ℕ

pub record DnsWorker : Type 0 where
  pub queue : List Job
  pub running : Bool

abbrev pub dns_worker_create : DnsWorker
dns_worker_create = record { queue = []; running = true }

-- The result, and the worker. The text of the port is at most five digits and its NUL.
unfoldable pub dns_worker_submit : Bool → DnsWorker → ℕ → Bytes → ℕ → ℕ → Bool × DnsWorker
dns_worker_submit malloc w fd host port target = if not malloc then (false, w) else (
  true,
  record w {
    queue =
        w.queue
        ++ record {
          host = take (host_max_len - 1) host;
          port = take 5 (decimal port);
          fd = fd;
          result_target = target;
        }
          ∷ [];
  },
)

-- What the thread does with the mutex held: it waits, ends, or takes the first job.
pub data Turn : Type 0 where
  waits : Turn
  ends : Turn
  takes : Job → Turn

abbrev turn : List Job → Bool → DnsWorker → Turn × DnsWorker
turn [] true w = (waits, w)
turn [] false w = (ends, w)
turn (job ∷ jobs) running w = (takes job, record w { queue = jobs })

unfoldable pub dns_thread : DnsWorker → Turn × DnsWorker
dns_thread w = turn w.queue w.running w

-- dns_worker_destroy up to pthread_join
abbrev pub stop : DnsWorker → DnsWorker
stop w = record w { running = false }
