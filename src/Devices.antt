-- ===== src/Devices.antt =====
-- The devices on the bus, and the bus.
pub mod Intc
pub mod Bus
pub mod Sbd
pub mod SdCard
pub mod Sd
pub mod Uart
pub mod Spi
pub mod SpiGpio
pub mod Ram
pub mod SimpleUart
pub mod Gpio
pub mod Lcdc
