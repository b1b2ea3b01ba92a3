-- ===== src/ProgType.antt =====
-- src/prog_type.rs: the program types, their ABI numbers and their context models.
pub mod Ids
use rand_verifier.Prelude.{ℕ, ◌==◌, if◌then◌else◌, Option, some, none}

pub data ProgType : Type 0 where
  socket_filter kprobe sched_cls sched_act trace_point xdp perf_event cgroup_skb : ProgType
  cgroup_sock sock_ops sk_skb cgroup_device raw_trace_point cgroup_sock_addr : ProgType
  cgroup_sysctl cgroup_sockopt tracing ext lsm sk_lookup syscall : ProgType
  other : ℕ → ProgType

-- src/ctx.rs `CtxModel`.
pub data CtxModel : Type 0 where
  model_socket_filter model_sched_cls model_xdp model_trace_point : CtxModel

unfoldable pub id : ProgType → ℕ
id socket_filter = 1
id kprobe = 2
id sched_cls = 3
id sched_act = 4
id trace_point = 5
id xdp = 6
id perf_event = 7
id cgroup_skb = 8
id cgroup_sock = 9
id sock_ops = 13
id sk_skb = 14
id cgroup_device = 15
id raw_trace_point = 17
id cgroup_sock_addr = 18
id cgroup_sysctl = 23
id cgroup_sockopt = 25
id tracing = 26
id ext = 28
id lsm = 29
id sk_lookup = 30
id syscall = 31
id (other n) = n

unfoldable pub from_id : ℕ → ProgType
from_id n =
    if n == 1
    then socket_filter
    else if n == 2
    then kprobe
    else if n == 3
    then sched_cls
    else if n == 4
    then sched_act
    else if n == 5
    then trace_point
    else if n == 6
    then xdp
    else if n == 7
    then perf_event
    else if n == 8
    then cgroup_skb
    else if n == 9
    then cgroup_sock
    else if n == 13
    then sock_ops
    else if n == 14
    then sk_skb
    else if n == 15
    then cgroup_device
    else if n == 17
    then raw_trace_point
    else if n == 18
    then cgroup_sock_addr
    else if n == 23
    then cgroup_sysctl
    else if n == 25
    then cgroup_sockopt
    else if n == 26
    then tracing
    else if n == 28
    then ext
    else if n == 29
    then lsm
    else if n == 30
    then sk_lookup
    else if n == 31
    then syscall
    else other n

unfoldable pub ctx_model : ProgType → Option CtxModel
ctx_model socket_filter = some model_socket_filter
ctx_model sched_cls = some model_sched_cls
ctx_model sched_act = some model_sched_cls
ctx_model cgroup_skb = some model_sched_cls
ctx_model xdp = some model_xdp
ctx_model trace_point = some model_trace_point
ctx_model _ = none
