-- ===== src/Imu/Regs.antt =====
-- port/stm32l4s5/b_l4s5i_imu_drv.c: the registers of the sensor that the driver uses, and what it
-- writes to them.
use anbo_mos.Common.{ℕ}

pub data Reg : Type 0 where
  fifo_ctrl1 fifo_ctrl2 fifo_ctrl3 fifo_ctrl5 int1_ctrl who_am_i ctrl1_xl ctrl2_g ctrl3_c : Reg
  wake_up_src out_temp_l outx_l_g outx_l_xl fifo_status1 fifo_data_out_l : Reg
  tap_cfg wake_up_ths wake_up_dur md1_cfg : Reg

abbrev pub address : Reg → ℕ
address fifo_ctrl1 = 0x06
address fifo_ctrl2 = 0x07
address fifo_ctrl3 = 0x08
address fifo_ctrl5 = 0x0a
address int1_ctrl = 0x0d
address who_am_i = 0x0f
address ctrl1_xl = 0x10
address ctrl2_g = 0x11
address ctrl3_c = 0x12
address wake_up_src = 0x1b
address out_temp_l = 0x20
address outx_l_g = 0x22
address outx_l_xl = 0x28
address fifo_status1 = 0x3a
address fifo_data_out_l = 0x3e
address tap_cfg = 0x58
address wake_up_ths = 0x5b
address wake_up_dur = 0x5c
address md1_cfg = 0x5e

abbrev pub lsm6dsl_addr : ℕ
lsm6dsl_addr = 0x6a

abbrev pub who_am_i_val : ℕ
who_am_i_val = 0x6a

abbrev pub ctrl3_c_sw_reset : ℕ
ctrl3_c_sw_reset = 0x01

-- `CTRL3_C_BDU | CTRL3_C_IF_INC`
abbrev pub ctrl3_c_bdu_if_inc : ℕ
ctrl3_c_bdu_if_inc = 0x44

-- `FIFO_CTRL3_DEC_G_NONE | FIFO_CTRL3_DEC_XL_NONE`
abbrev pub fifo_ctrl3_dec_none : ℕ
fifo_ctrl3_dec_none = 0x09

abbrev pub fifo_mode_continuous : ℕ
fifo_mode_continuous = 0x06

abbrev pub int1_fth : ℕ
int1_fth = 0x08

abbrev pub fifo_words_per_set : ℕ
fifo_words_per_set = 6

-- The output data rates.
pub data Odr : Type 0 where
  odr_off odr_12_5hz odr_26hz odr_52hz odr_104hz odr_208hz odr_416hz odr_833hz odr_1660hz : Odr

abbrev pub odr_code : Odr → ℕ
odr_code odr_off = 0
odr_code odr_12_5hz = 1
odr_code odr_26hz = 2
odr_code odr_52hz = 3
odr_code odr_104hz = 4
odr_code odr_208hz = 5
odr_code odr_416hz = 6
odr_code odr_833hz = 7
odr_code odr_1660hz = 8
