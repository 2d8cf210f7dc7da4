-- ===== src/Vmlinux/Layout.antt =====
-- The numbers of the helpers in bpf/vmlinux.h.
use ebpf_docker_anormaly_det.Prelude.{ℕ, ◌≡◌, some, String, refl}
use ebpf_docker_anormaly_det.CTypes.Enums.{value_of, name_of, name_of-value_of, values}
use ebpf_docker_anormaly_det.Prelude.Table.{distinct}
use ebpf_docker_anormaly_det.Vmlinux.Helpers.{bpf_func_id}

-- The helper that has the number of a name is the one of that name: no two helpers of bpf_func_id share
-- a number.
pub name_of-helper :
    (x : String) (v : ℕ) → value_of x bpf_func_id ≡ some v → name_of v bpf_func_id ≡ some x
unfolding values distinct
name_of-helper x v e = name_of-value_of bpf_func_id x v refl e
