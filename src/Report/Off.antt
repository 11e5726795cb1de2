-- ===== src/Report/Off.antt =====
-- Field offsets and lengths of attestation_report.py: `Off.policy` is `_OFF_POLICY`.
use sev_certify.Prelude.{ℕ}

abbrev pub version : ℕ
version = 0x000

abbrev pub guest_svn : ℕ
guest_svn = 0x004

abbrev pub policy : ℕ
policy = 0x008

abbrev pub family_id : ℕ
family_id = 0x010

abbrev pub image_id : ℕ
image_id = 0x020

abbrev pub vmpl : ℕ
vmpl = 0x030

abbrev pub report_data : ℕ
report_data = 0x050

abbrev pub measurement : ℕ
measurement = 0x090

abbrev pub host_data : ℕ
host_data = 0x0C0

abbrev pub id_key_digest : ℕ
id_key_digest = 0x0E0

abbrev pub author_key_digest : ℕ
author_key_digest = 0x110

abbrev pub report_id : ℕ
report_id = 0x140

abbrev pub reported_tcb : ℕ
reported_tcb = 0x180

abbrev pub cpuid_fam : ℕ
cpuid_fam = 0x188

abbrev pub launch_tcb : ℕ
launch_tcb = 0x1F0

abbrev pub len_id : ℕ
len_id = 16

abbrev pub len_measurement : ℕ
len_measurement = 48

abbrev pub len_digest : ℕ
len_digest = 48

abbrev pub len_report_data : ℕ
len_report_data = 64

abbrev pub len_host_data : ℕ
len_host_data = 32

abbrev pub len_report_id : ℕ
len_report_id = 32
