-- ===== src/ExecuteClass.antt =====
-- crates/rustmistmcp-core/src/execute_class.rs: how each `execute` operation is controlled.
pub mod Partition
mod Examples
use rustmistmcp.Prelude.{List, [], ◌∷◌, String, contains_text, if◌then◌else◌}

pub data ExecuteClass : Type 0 where
  excluded diagnostic gated : ExecuteClass

abbrev pub excluded_execute_operations : List String
excluded_execute_operations =
    "exportOrgSsrIdTokens" ∷ "generateSecretFor2faVerification" ∷ "getSiteDeviceZtpPassword"
    ∷ "loginOauth2" ∷ "logout" ∷ "recoverPassword" ∷ "sendSdkInviteEmail" ∷ "sendSdkInviteSms"
    ∷ "twoFactor" ∷ "verifyAdminInvite" ∷ "verifyRecoverPassword" ∷ "verifyRegistration"
    ∷ "verifyTwoFactor" ∷ []

abbrev pub diagnostic_execute_operations : List String
diagnostic_execute_operations =
    "arpFromDevice" ∷ "cableTestFromSwitch" ∷ "initiateSiteAnalyzeSpectrum" ∷ "lookup"
    ∷ "monitorSiteDeviceTraffic" ∷ "pingFromDevice" ∷ "pingOrgWebhook" ∷ "pingSiteWebhook"
    ∷ "pollSiteSwitchStats" ∷ "runSiteSrxTopCommand" ∷ "servicePingFromSsr"
    ∷ "showSiteDeviceArpTable" ∷ "showSiteDeviceBgpSummary" ∷ "showSiteDeviceDhcpLeases"
    ∷ "showSiteDeviceDot1xTable" ∷ "showSiteDeviceEvpnDatabase" ∷ "showSiteDeviceForwardingTable"
    ∷ "showSiteDeviceMacTable" ∷ "showSiteGatewayOspfDatabase" ∷ "showSiteGatewayOspfInterfaces"
    ∷ "showSiteGatewayOspfNeighbors" ∷ "showSiteGatewayOspfSummary" ∷ "showSiteSsrAndSrxRoutes"
    ∷ "showSiteSsrAndSrxSessions" ∷ "showSiteSsrServicePath" ∷ "startInstallerLocateDevice"
    ∷ "startSiteLocateDevice" ∷ "startSiteSwitchRadiusSyntheticTest" ∷ "stopInstallerLocateDevice"
    ∷ "stopSiteLocateDevice" ∷ "testOrgCradlepointConnection" ∷ "testSiteSsrDnsResolution"
    ∷ "testSiteWlanSmsGlobal" ∷ "testSiteWlanTelstraSetup" ∷ "testSiteWlanTwilioSetup"
    ∷ "tracerouteFromDevice" ∷ "triggerSiteDeviceSyntheticTest" ∷ "triggerSiteSyntheticTest"
    ∷ "validateOrgIdpCredential" ∷ "verifyOrgCustomBucket" ∷ []

abbrev pub gated_execute_operations : List String
gated_execute_operations =
    "UploadOrgTicketAttachment" ∷ "addInstallerDeviceImage" ∷ "addOrgInventory"
    ∷ "addOrgMxEdgeImage" ∷ "addOrgTicketComment" ∷ "addSiteDeviceImage" ∷ "addSiteMapImage"
    ∷ "bounceDevicePort" ∷ "bounceOrgMxEdgeDataPorts" ∷ "cancelOrgDeviceUpgrade"
    ∷ "cancelOrgMxEdgeUpgrade" ∷ "cancelOrgSsrUpgrade" ∷ "cancelSiteDeviceUpgrade"
    ∷ "cancelSiteMxEdgeUpgrade" ∷ "claimInstallerDevices" ∷ "claimMspLicense" ∷ "claimOrgLicense"
    ∷ "claimOrgMxEdge" ∷ "clearAllLearnedMacsFromPortOnSwitch" ∷ "clearBpduErrorsFromPortsOnSwitch"
    ∷ "clearOrgCertificates" ∷ "clearSiteApAutoOrient" ∷ "clearSiteApAutoplacement"
    ∷ "clearSiteAutoMapAssignment" ∷ "clearSiteDeviceDot1xSession" ∷ "clearSiteDeviceMacTable"
    ∷ "clearSiteDevicePendingVersion" ∷ "clearSiteDevicePolicyHitCount" ∷ "clearSiteDeviceSession"
    ∷ "clearSiteMultipleDevicePendingVersion" ∷ "clearSiteSsrArpCache" ∷ "clearSiteSsrBgpRoutes"
    ∷ "controlOrgMxEdgeServices" ∷ "createOrUpdateInstallerSites"
    ∷ "deauthSiteWirelessClientsConnectedToARogue" ∷ "disconnectOrgMxEdgeTuntermAps"
    ∷ "disconnectSiteMultipleClients" ∷ "disconnectSiteWirelessClient" ∷ "enableOrgE911Report"
    ∷ "enableSiteDeviceZigbeeJoin" ∷ "importInstallerMap" ∷ "importOrgAssets" ∷ "importOrgMapToSite"
    ∷ "importOrgMaps" ∷ "importOrgNacCrl" ∷ "importOrgPsks" ∷ "importOrgUserMacs"
    ∷ "importSiteAssets" ∷ "importSiteDevices" ∷ "importSiteMaps" ∷ "importSitePsks"
    ∷ "importSiteWayfindings" ∷ "kickSiteDeviceZigbeeClients" ∷ "login" ∷ "manageMspOrgs"
    ∷ "moveOrDeleteMspLicenseToAnotherOrg" ∷ "moveOrDeleteOrgLicenseToAnotherOrg"
    ∷ "optimizeInstallerRrm" ∷ "optimizeSiteRrm" ∷ "preemptSitesMxTunnel"
    ∷ "readoptSiteOctermDevice" ∷ "reauthOrgDot1xWiredClient" ∷ "reauthOrgDot1xWirelessClient"
    ∷ "reauthSiteDot1xWiredClient" ∷ "reauthSiteDot1xWirelessClient" ∷ "rebootOrgOtherDevice"
    ∷ "reevaluateOrgAutoAssignment" ∷ "rejoinSiteIotEndpointZigbee" ∷ "releaseSiteDeviceDhcpLease"
    ∷ "releaseSiteSsrDhcpLease" ∷ "reprovisionSiteAllDevices" ∷ "reprovisionSiteOctermDevice"
    ∷ "resetSiteAllApsToUseRrm" ∷ "resetSiteMlStatsByMap" ∷ "restartOrgMxEdge" ∷ "restartSiteDevice"
    ∷ "restartSiteMultipleDevices" ∷ "restoreSiteDeviceBackupVersion"
    ∷ "restoreSiteMultipleDeviceBackupVersion" ∷ "runSiteApAutoplacement" ∷ "sendOrgNacClientCoA"
    ∷ "sendSiteDevicesArbitraryBleBeacon" ∷ "sendSiteNacClientCoA" ∷ "startOrgPacketCapture"
    ∷ "startSiteApAutoOrientation" ∷ "startSiteAutoMapAssignment"
    ∷ "startSiteDeviceZigbeeEventTrail" ∷ "startSiteDeviceZigbeePacketTrail"
    ∷ "startSiteFlowCapture" ∷ "startSiteMapAutoGeofence" ∷ "startSiteMapAutoZone"
    ∷ "startSiteMapsAutoGeofence" ∷ "startSitePacketCapture" ∷ "startSiteRecording"
    ∷ "stopSiteRfdiagRecording" ∷ "syncOrgCradlepointRouters"
    ∷ "toogleSiteDeviceVcRoutingEnginesRole" ∷ "upgradeDevice" ∷ "upgradeDeviceBios"
    ∷ "upgradeDeviceFPGA" ∷ "upgradeOrgDevices" ∷ "upgradeOrgJsiDevice" ∷ "upgradeOrgMxEdges"
    ∷ "upgradeOrgSsrs" ∷ "upgradeSiteDevices" ∷ "upgradeSiteDevicesBios" ∷ "upgradeSiteDevicesFpga"
    ∷ "upgradeSiteMxEdges" ∷ "upgradeSsr" ∷ "uploadOrgMxEdgeSupportFiles"
    ∷ "uploadOrgNacPortalImage" ∷ "uploadOrgPskPortalImage" ∷ "uploadOrgWlanPortalImage"
    ∷ "uploadSiteDeviceSupportFile" ∷ "uploadSiteMxEdgeSupportFiles" ∷ "uploadSiteWlanPortalImage"
    ∷ []

unfoldable pub execute_class : String → ExecuteClass
execute_class operation_id =
    if contains_text excluded_execute_operations operation_id
    then excluded
    else if contains_text diagnostic_execute_operations operation_id
    then diagnostic
    else gated
